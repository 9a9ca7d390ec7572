-- ===== src/Console/InRange/Session.antt =====
-- A whole session of the console: any keys in any order.
use mathlib.Core.Path.{subst}
use password_manager_server.Prelude.{◌≡◌, inl, refl, Text, arith}
use password_manager_server.Console.{App, Json, Outside, new}
use password_manager_server.Console.Fetch.{fetch_all, fetch_users}
use password_manager_server.Console.Keys.{Key, running, press}
use password_manager_server.Console.InRange.{IsInRange, fetch_all-IsInRange, fetch_users-IsInRange}
use password_manager_server.Console.InRange.Press.{Fine, press-Fine}

module _ {Value : Type 0} (json : Json Value) where
  -- The console at work: `main` starts it, and keys are pressed. Drawing works on a copy of the
  -- selection.
  pub data Session : App → Type 0 where
    opened :
        (o : Outside Value) (base admin_key export_dir : Text)
        → Session (fetch_users json o (fetch_all json o (new base admin_key export_dir)))
    pressed :
        {app app' : App} (o : Outside Value) (key : Key)
        → Session app
        → press json o app key ≡ running app'
        → Session app'

  new-IsInRange : (base admin_key export_dir : Text) → IsInRange (new base admin_key export_dir)
  unfolding new
  new-IsInRange base admin_key export_dir = record {
    page_there = inl refl;
    pages = inl refl;
    row_there = λ i e. absurd (ground arith);
    on_page = λ i e. absurd (ground arith);
    user_there = λ i e. absurd (ground arith);
  }

  -- Whatever keys are pressed and whatever the server answers, the page that the console shows exists
  -- and the selected device and the selected user are on it and in its list.
  pub Session-IsInRange : {app : App} → Session app → IsInRange app
  Session-IsInRange (opened o base admin_key export_dir) =
      fetch_users-IsInRange json o _
        (fetch_all-IsInRange json o _ (new-IsInRange base admin_key export_dir))
  Session-IsInRange (pressed {app} {app'} o key s e) =
      subst (Fine json o) e (press-Fine json o app key (Session-IsInRange s))
