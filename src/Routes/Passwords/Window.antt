-- ===== src/Routes/Passwords/Window.antt =====
-- The days that a password has left.
use password_manager_server.Prelude.{ℕ, ◌-◌, ◌/◌, ◌≡◌, ◌↔◌, true, ℤ, pos, ◌≤ℤ◌, ◌-ℤ◌, arith}
use password_manager_server.Routes.Passwords.{days_remaining, is_expired, day}

-- A password has expired exactly when as many whole days have passed as it was to live; the time
-- before it starts counts as no days.
pub is_expired_iff :
    (now valid_since : ℕ) (days : ℤ)
    → (is_expired now valid_since days ≡ true) ↔ (days ≤ℤ pos ((now - valid_since) / day))
unfolding is_expired days_remaining ◌-ℤ◌
is_expired_iff now valid_since days = ground arith
