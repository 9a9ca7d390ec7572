-- ===== src/Server/Router/Slashes.antt =====
-- Taking apart a path that was put together from segments.
use password_manager_server.Prelude.{
  ◌≡◌, ◌≢◌, refl, some, Bool, false, List, [], ◌∷◌, ◌++◌, Text, nat_eq, All, arith, ◌||◌,
}
use password_manager_server.Server.Http.{split_slash, filled}

split-plain : (t : Text) → All (λ b. b ≢ 47) t → split_slash t ≡ (t, [])
unfolding split_slash
split-plain [] h = refl
split-plain (b ∷ bs) (n, h) =
    let e : nat_eq b 47 ≡ false = ground (arith, n) in rw (split-plain bs h, e) refl

split-append :
    (t rest : Text) (more : List Text)
    → All (λ b. b ≢ 47) t
    → split_slash rest ≡ ([], more)
    → split_slash (t ++ rest) ≡ (t, more)
unfolding split_slash
split-append [] rest more h k = k
split-append (b ∷ bs) rest more (n, h) k =
    let e : nat_eq b 47 ≡ false = ground (arith, n) in rw (split-append bs rest more h k, e) refl

filled-nonempty : (t : Text) (ps : List Text) → t ≢ [] → filled t (some ps) ≡ some (t ∷ ps)
filled-nonempty [] ps n = absurd (n refl)
filled-nonempty (b ∷ bs) ps n = refl

-- The segments, each behind a slash.
abbrev pub join : List Text → Text
join [] = []
join (s ∷ []) = 47 ∷ s
join (s ∷ t ∷ ss) = 47 ∷ (s ++ join (t ∷ ss))

abbrev pub IsPlain : Text → Type 0
IsPlain t = All (λ b. b ≢ 47) t

abbrev pub has_slash : Text → Bool
has_slash [] = false
has_slash (b ∷ bs) = nat_eq b 47 || has_slash bs

pub plain : (t : Text) → has_slash t ≡ false → IsPlain t
plain [] h = tt
plain (b ∷ bs) h = (λ e. absurd (ground (arith, e)), plain bs (ground arith))

pub split-join :
    (s : Text) (ss : List Text) → All IsPlain (s ∷ ss) → split_slash (join (s ∷ ss)) ≡ ([], s ∷ ss)
unfolding split_slash
split-join s [] (h, k) = rw (split-plain s h) refl
split-join s (t ∷ ss) (h, k) =
    let rest = split-join t ss k in
    let whole : split_slash (s ++ join (t ∷ ss)) ≡ (s, t ∷ ss) =
      split-append s (join (t ∷ ss)) (t ∷ ss) h rest in
    rw whole refl
