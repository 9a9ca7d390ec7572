-- ===== src/Console/Screen/Total.antt =====
-- Device tokens that can be drawn.
use password_manager_server.Prelude.{
  ℕ, zero, suc, ◌+◌, ◌-◌, ◌*◌, ◌<◌, ◌≡◌, refl, some, List, [], ◌∷◌, min, Text, length, get_elem?,
  take, drop, ◌++◌, codes, ltb, nat_eq, arith, Option-cases, Bool-cases, inl, inr, All,
}
use password_manager_server.Console.{App, IdentityEntry, page_start}
use password_manager_server.Console.Fetch.{value_or}
use password_manager_server.Console.Screen.{
  drawn_page, Screen, render, render_content, render_devices,
}
use password_manager_server.Console.Screen.Rows.{Row, trunc, device_row, device_rows}
use password_manager_server.Console.Screen.Shown.{elem-below, slice-page}

-- All bytes are ASCII.
abbrev pub IsAscii : Text → Type 0
IsAscii t = All (λ b. b < 128) t

abbrev pub HasAsciiToken : IdentityEntry → Type 0
HasAsciiToken e = IsAscii e.device_token

module _ {A : Type 0} (P : A → Type 0) where
  All-elem : (xs : List A) (i : ℕ) (x : A) → All P xs → get_elem? xs i ≡ some x → P x
  All-elem [] i x h e = absurd (ground arith)
  All-elem (y ∷ xs) zero x (p, h) e = let q : y ≡ x = cc in rw q at p
  All-elem (y ∷ xs) (suc i) x (p, h) e = All-elem xs i x h e

  All-take : (n : ℕ) (xs : List A) → All P xs → All P (take n xs)
  All-take zero xs h = tt
  All-take (suc n) [] h = tt
  All-take (suc n) (x ∷ xs) (p, h) = (p, All-take n xs h)

  All-drop : (n : ℕ) (xs : List A) → All P xs → All P (drop n xs)
  All-drop zero xs h = h
  All-drop (suc n) [] h = tt
  All-drop (suc n) (x ∷ xs) (p, h) = All-drop n xs h

trunc_total : (s : Text) (max : ℕ) → IsAscii s → (t : Text) × (trunc s max ≡ some t)
unfolding trunc
trunc_total s max h = elim (Bool-cases (ltb max (length s))) [
  | inl l ↦
      let (b, e) = elem-below s max (ground arith) in
      let low : b < 128 = All-elem (λ b. b < 128) s max b h e in
      (take max s ++ codes "...", ground (arith, e, low, l))
  | inr l ↦ (s, rw (l, trunc) refl)
]

device_rows_total :
    (selected idx : ℕ) (es : List IdentityEntry)
    → All HasAsciiToken es
    → (rows : List Row) × (device_rows selected idx es ≡ some rows)
unfolding device_rows
device_rows_total selected idx [] h = ([], refl)
device_rows_total selected idx (e ∷ es) (p, h) =
    let (token, cut) = trunc_total e.device_token 45 p in
    let (rows, drawn) = device_rows_total selected (idx + 1) es h in
    (device_row (nat_eq selected idx) e token ∷ rows, rw (cut, device_rows, drawn) refl)

-- If the device tokens that the server sent are ASCII, every state of the console can be drawn.
pub render_total :
    (app : App) → All HasAsciiToken app.rows → (screen : Screen) × (render app ≡ some screen)
unfolding render render_content render_devices drawn_page page_start
render_total app h =
    let start = app.page * 10 in
    let count = min (start + 10) (length app.rows) - start in
    let ascii =
      All-take HasAsciiToken count (drop start app.rows)
        (All-drop HasAsciiToken start app.rows h) in
    elim (Option-cases (render app)) [
      | inr (screen, e) ↦ (screen, e)
      | inl e ↦
          let (rows, drawn) =
            device_rows_total (value_or 0 app.table_state) 0 (take count (drop start app.rows))
              ascii in
          elim (Bool-cases (ltb start (length app.rows))) [
            | inl l ↦
                let cut_out = slice-page app.rows start (ground arith) in
                absurd (ground (arith, drawn, e, cut_out))
            | inr l ↦ absurd (ground (arith, e, l))
          ]
    ]
