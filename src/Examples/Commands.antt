-- ===== src/Examples/Commands.antt =====
-- The subcommands of the console, tried without a server and with the console's own.
use password_manager_server.Prelude.{◌≡◌, refl, none, [], ◌∷◌, Text, Text-discrete, codes}
use password_manager_server.Console.{new, send, page_start, selected_global_index}
use password_manager_server.Console.Fetch.{
  fetch_all, fetch_users, rows_reply, users_reply, show_rows, identity_entry,
}
use password_manager_server.Console.Actions.{toggle_at, toggle_selected}
use password_manager_server.Console.Command.{Shell, unreachable, panicked, run_command}
use password_manager_server.Console.Command.Requests.{Asks, environment}
use password_manager_server.Console.Command.Ends.{Cause, run_command-Cause}
use password_manager_server.Console.Command.Pressed.{IsKeyFor, toggles, by_space, press-Asks}
use password_manager_server.Console.Keys.{press, press_modal, press_plain, toggle, running, space}
use password_manager_server.Examples.Terminal.{json, outside, second, shown_device}

abbrev pub silent : Shell Text
silent = record {
  null = [];
  pretty = λ v. v;
  answer = unreachable;
  unread = λ path. none;
  contents = λ path. [];
  unwritten = λ path. none;
}

unanswered : (run_command json silent (environment second) (codes "users") []).ended ≡ panicked
unfolding run_command Text-discrete
unanswered = refl

run_command-Cause_example :
    Cause json silent
      (environment second)
      (codes "users")
      []
      (run_command json silent (environment second) (codes "users") [])
run_command-Cause_example =
    run_command-Cause json silent (environment second) (codes "users") [] unanswered

is_key : IsKeyFor json silent outside second space (codes "confirm") (codes "x" ∷ [])
unfolding fetch_users fetch_all new send rows_reply users_reply show_rows identity_entry
    selected_global_index page_start
is_key =
    toggles 1 shown_device by_space (record { up = refl; no_delete = refl; no_export = refl }) refl
      refl refl

pressed : press json outside second space ≡ running (toggle_at json outside second 1 shown_device)
unfolding press press_modal press_plain toggle toggle_selected selected_global_index page_start
    fetch_users fetch_all new send rows_reply users_reply show_rows identity_entry
pressed = refl

press-Asks_example :
    Asks json silent second
      (toggle_at json outside second 1 shown_device)
      (codes "confirm")
      (codes "x" ∷ [])
press-Asks_example =
    press-Asks json silent outside second (toggle_at json outside second 1 shown_device) is_key
      pressed
