-- ===== src/Config.antt =====
-- src/config.rs: the configuration and its reading from the environment.
use password_manager_server.Prelude.{
  ℕ, ◌+◌, ◌*◌, ◌-◌, ◌^◌, String, Option, none, some, [], ◌∷◌, Bytes, Text, ltb, leb, nat_eq, length,
  ◌&&◌, if◌then◌else◌,
}
use password_manager_server.Crates.{Crates}

pub record Config : Type 0 where
  pub database_encrypt_secret : Bytes
  pub software_secret : Bytes
  pub database_url : Text
  pub bind_addr : Text
  pub db_pool_size : ℕ
  pub cors_origin : Option Text
  pub admin_allowed_subnet : Text

-- The process environment, `env::var(key).ok()`.
abbrev pub Environment : Type 0
Environment = String → Option Text

infixl 5 ◌>>=◌
abbrev pub ◌>>=◌ : {A B : Type 0} → Option A → (A → Option B) → Option B
none >>= f = none
some a >>= f = f a

-- Digits with a bound, as `str::parse` of an unsigned integer reads them.
unfoldable pub parse_digits : ℕ → ℕ → Text → Option ℕ
parse_digits bound acc [] = some acc
parse_digits bound acc (d ∷ ds) =
    let next = acc * 10 + (d - 48) in
    let rest = parse_digits bound next ds in
    if leb 48 d && leb d 57 && ltb next bound then rest else none

-- `str::parse` of an unsigned type below `bound`: one leading `+` is allowed, and a digit is wanted.
unfoldable pub parse_unsigned : ℕ → Text → Option ℕ
unfolding parse_digits
parse_unsigned bound [] = none
parse_unsigned bound (d ∷ ds) =
    if nat_eq d 43
    then (elim ds [ [] ↦ none | e ∷ es ↦ parse_digits bound 0 (e ∷ es) ])
    else parse_digits bound 0 (d ∷ ds)

module _ (c : Crates) (env : Environment) where
  -- A secret is 32 bytes in hex.
  unfoldable pub decode_hex_env : String → Option Bytes
  decode_hex_env key = do
    val ← env key
    bytes ← c.hex_decode val
    if nat_eq (length bytes) 32 then some bytes else none

  -- `none` stands for every error: the server does not start.
  unfoldable pub from_env : Option Config
  unfolding decode_hex_env parse_unsigned
  from_env = do
    database_encrypt_secret ← decode_hex_env "DATABASEENCRYPTSECRET"
    software_secret ← decode_hex_env "SOFTWARESECRET"
    database_url ← env "DATABASE_URL"
    bind_addr ← env "BIND_ADDR"
    size_text ← env "DB_POOL_SIZE"
    db_pool_size ← parse_unsigned (2 ^ 32) size_text
    admin_allowed_subnet ← env "ADMIN_ALLOWED_SUBNET"
    some (record {
      database_encrypt_secret = database_encrypt_secret;
      software_secret = software_secret;
      database_url = database_url;
      bind_addr = bind_addr;
      db_pool_size = db_pool_size;
      cors_origin = env "CORS_ORIGIN";
      admin_allowed_subnet = admin_allowed_subnet;
    })
