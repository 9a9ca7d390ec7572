-- ===== src/Server/System.antt =====
-- The running server: any number of requests in progress over one world, their actions in any order.
use password_manager_server.Prelude.{ℕ, ◌≤◌, ◌≡◌, Option, Bool, true, List, [], ◌∷◌, ◌++◌}
use password_manager_server.Crates.{Crates}
use password_manager_server.Config.{Config}
use password_manager_server.Error.{DbError}
use password_manager_server.Prog.{World, Prog, atomic}
use password_manager_server.Routes.Auth.{authorised}
use password_manager_server.Server.{Request, Response, handle}

pub record System : Type 0 where
  pub world : World
  pub threads : List (Prog Response)

-- `admin`: requests that pass both gates of an administrator may arrive.
pub data Step (c : Crates) (cfg : Config) (admin : Bool) (s : System) : System → Type 0 where
  arrive :
      (r : Request)
      → (authorised c r.headers cfg r.peer ≡ true → admin ≡ true)
      → Step c cfg admin s (record s { threads = s.threads ++ handle c cfg r ∷ [] })
  act :
      (front back : List (Prog Response)) (u : World → World) (k : World → Prog Response)
      → s.threads ≡ front ++ atomic u k ∷ back
      → Step c cfg admin s (record { world = u s.world; threads = front ++ k s.world ∷ back })
  -- Time passes, the pool runs dry or fills, the database fails or comes back.
  elapse :
      (now : ℕ) (pool_open : Bool) (fault : Option DbError)
      → s.world.now ≤ now
      → Step c cfg admin s
          (record s { world = record s.world { now = now; pool_open = pool_open; fault = fault } })

pub data Reach (c : Crates) (cfg : Config) (admin : Bool) (w : World) : System → Type 0 where
  start : Reach c cfg admin w (record { world = w; threads = [] })
  next : {s t : System} → Reach c cfg admin w s → Step c cfg admin s t → Reach c cfg admin w t
