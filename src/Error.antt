-- ===== src/Error.antt =====
-- src/error.rs: the error type of the handlers, its HTTP status and text, and `validate_length`.
-- The error values of Diesel and of the pool are data of the crates; what the code matches on is
-- kept apart.
pub mod Cases
use Prim.Native.String.{◌++◌, slice}
use password_manager_server.Prelude.{
  ℕ, zero, suc, ◌+◌, ◌/◌, ◌%◌, String, Text, ltb, length, if◌then◌else◌,
}

-- diesel::result::Error, as far as the queries of the program can return it.
pub data DbError : Type 0 where
  unique_violation : DbError
  foreign_key_violation : DbError
  row_not_found : DbError
  other_error : String → DbError

abbrev pub db_error_text : DbError → String
db_error_text unique_violation = "UNIQUE constraint failed"
db_error_text foreign_key_violation = "FOREIGN KEY constraint failed"
db_error_text row_not_found = "Record not found"
db_error_text (other_error s) = s

pub data AppError : Type 0 where
  identity_not_found : AppError
  not_found : String → AppError
  unauthorized : String → AppError
  conflict : String → AppError
  precondition_failed : String → AppError
  database : DbError → AppError
  pool : String → AppError
  crypto : String → AppError
  internal : String → AppError
  validation : String → AppError

pub data Result {ℓ} (E : Type 0) (A : Type ℓ) : Type ℓ where
  ok : A → Result E A
  err : E → Result E A

abbrev pub AppResult : Type 0 → Type 0
AppResult A = Result AppError A

infixl 5 ◌>>=◌ ◌>>◌
abbrev pub ◌>>=◌ : {A B : Type 0} → AppResult A → (A → AppResult B) → AppResult B
ok a >>= f = f a
err e >>= f = err e

abbrev pub ◌>>◌ : {B : Type 0} → AppResult (Unit {0}) → AppResult B → AppResult B
m >> k = m >>= λ _. k

-- The status that `into_response` chooses.
unfoldable pub status_code : AppError → ℕ
status_code identity_not_found = 404
status_code (not_found s) = 404
status_code (unauthorized s) = 401
status_code (conflict s) = 409
status_code (precondition_failed s) = 412
status_code (validation s) = 400
status_code (database e) = 500
status_code (pool s) = 500
status_code (crypto s) = 500
status_code (internal s) = 500

-- `self.to_string()`, the body of the response.
unfoldable pub error_text : AppError → String
error_text identity_not_found = "identity not found"
error_text (not_found s) = "not found: " ++ s
error_text (unauthorized s) = "unauthorized: " ++ s
error_text (conflict s) = "conflict: " ++ s
error_text (precondition_failed s) = "precondition failed: " ++ s
error_text (database e) = "database error: " ++ db_error_text e
error_text (pool s) = "connection pool error: " ++ s
error_text (crypto s) = "crypto error: " ++ s
error_text (internal s) = "internal error: " ++ s
error_text (validation s) = "validation error: " ++ s

digit : ℕ → String
digit d = slice "0123456789" d (d + 1)

decimal_from : ℕ → ℕ → String
decimal_from zero n = ""
decimal_from (suc fuel) n =
    let front = decimal_from fuel (n / 10) in if ltb n 10 then digit n else front ++ digit (n % 10)

-- `format!("{n}")`. A number has fewer digits than `n + 1`.
unfoldable pub decimal : ℕ → String
unfolding decimal_from digit
decimal n = decimal_from (suc n) n

unfoldable pub validate_length : String → Text → ℕ → AppResult (Unit {0})
validate_length name field max =
    if ltb max (length field)
    then err (validation (name ++ " exceeds " ++ decimal max ++ " characters"))
    else ok tt

-- The answer that gives nothing away.
abbrev pub refused : AppError
refused = unauthorized "unauthorized"
