-- ===== src/Examples/Terminal.antt =====
-- The console, tried with a server that has two devices and one user.
use password_manager_server.Prelude.{
  All, arith, ◌≡◌, ◌≢◌, refl, none, some, true, false, not, [], ◌∷◌, ◌++◌, map, any, select, Text,
  Text-discrete, codes, length, pos,
}
use password_manager_server.Console.{
  App, IdentityEntry, UserEntry, get, Json, answer, Outside, new, page_start, send,
}
use password_manager_server.Console.Fetch.{
  fetch_all, fetch_users, rows_reply, users_reply, show_rows, identity_entry, user_entry,
}
use password_manager_server.Console.Actions.{
  user_conf, devices_of, selected_user, toggle_user_approval,
}
use password_manager_server.Console.Moves.{next_row, page_count}
use password_manager_server.Console.Keys.{down, running, press, press_modal, press_plain}
use password_manager_server.Console.InRange.{IsInRange}
use password_manager_server.Console.InRange.Press.{Fine, press-Fine}
use password_manager_server.Console.InRange.Session.{Session, opened, pressed, Session-IsInRange}
use password_manager_server.Console.Screen.{
  Content, Screen, table, device_widths, device_columns, render,
}
use password_manager_server.Console.Screen.Rows.{device_row}
use password_manager_server.Console.Screen.Total.{HasAsciiToken, render_total}
use password_manager_server.Console.Approvals.{
  user_conf_lem, request, approval, toggle_user_approval-sent,
}

-- A value is a text, or a list of two objects.
abbrev pub json : Json Text
json = record {
  field = λ v key. codes "x";
  as_str = λ v. some v;
  as_bool = λ v. none;
  as_i64 = λ v. none;
  as_array = λ v. some (v ∷ v ∷ []);
}

abbrev pub outside : Outside Text
outside = record {
  reply = λ n. answer true (codes "200 OK") [] none;
  exists = λ path. false;
  unread = λ path. none;
  contents = λ path. [];
  unwritten = λ path. none;
}

abbrev first : App
first = fetch_users json outside (fetch_all json outside (new [] [] []))

abbrev pub second : App
second = record first { table_state = some 1 }

moved : press json outside first down ≡ running second
unfolding press press_modal press_plain next_row page_count page_start fetch_users fetch_all new
    send rows_reply users_reply show_rows
moved = refl

session : Session json second
session = pressed outside down (opened outside [] [] []) moved

Session-IsInRange_example : IsInRange second
Session-IsInRange_example = Session-IsInRange json session

press-Fine_example : Fine json outside (press json outside second down)
press-Fine_example = press-Fine json outside second down (Session-IsInRange json session)

user_conf_lem_example : user_conf (codes "x") second.rows ≡ (
  length (select (λ (i : IdentityEntry). i.confirmed) (devices_of (codes "x") second.rows)),
  length (devices_of (codes "x") second.rows),
)
user_conf_lem_example = user_conf_lem (codes "x") second.rows

abbrev person : UserEntry
person = record {
  uuid = codes "x";
  name = codes "x";
  is_deleted = false;
  identity_count = pos 0;
  created_at = codes "x";
  updated_at = codes "x";
}

chosen : selected_user json outside second ≡ some person
unfolding fetch_users fetch_all new send rows_reply users_reply show_rows user_entry
chosen = refl

owned : devices_of person.uuid second.rows ≢ []
unfolding fetch_users fetch_all new send rows_reply users_reply show_rows identity_entry devices_of
    select Text-discrete
owned e = cc

toggle_user_approval-sent_example :
    (toggle_user_approval json outside second).sent
    ≡ second.sent
      ++ map
          (approval second
            (any (λ (i : IdentityEntry). not i.confirmed) (devices_of person.uuid second.rows)))
          (devices_of person.uuid second.rows)
      ++ request second get (codes "/admin/identities") ∷ []
toggle_user_approval-sent_example =
    toggle_user_approval-sent json outside second person chosen owned

-- A device as the console has it.
abbrev pub shown_device : IdentityEntry
shown_device = record {
  uuid = codes "x";
  user_id = some (codes "x");
  ip_address = codes "x";
  confirmed = false;
  device_token = codes "x";
  created_at = codes "x";
  updated_at = codes "x";
}

listed : second.rows ≡ shown_device ∷ shown_device ∷ []
unfolding fetch_users fetch_all new send rows_reply users_reply show_rows identity_entry user_entry
listed = refl

-- The second device is highlighted.
abbrev drawn : Content
drawn =
    table device_widths device_columns
      (device_row false shown_device (codes "x") ∷ device_row true shown_device (codes "x") ∷ [])
      (some 1)

ascii : All HasAsciiToken second.rows
unfolding fetch_users fetch_all new send rows_reply users_reply show_rows identity_entry user_entry
ascii = ((omega arith, tt), ((omega arith, tt), tt))

render_total_example : (screen : Screen) × (render second ≡ some screen)
render_total_example = render_total second ascii
