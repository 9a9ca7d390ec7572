-- ===== src/Schema.antt =====
-- src/schema.rs, the structs of src/domain/ and the constraints of migrations/: the four tables and
-- the rows that are inserted into and changed in them. A timestamp counts nanoseconds.
use password_manager_server.Prelude.{ℕ, Option, Bool, List, [], Bytes, Text, ℤ}

pub record User : Type 0 where
  pub uuid : Text
  pub name : Text
  pub ehlo_secret : Text
  pub is_deleted : Bool
  pub extra : Text
  pub created_at : ℕ
  pub updated_at : ℕ

pub record NewUser : Type 0 where
  pub uuid : Text
  pub name : Text
  pub ehlo_secret : Text
  pub is_deleted : Bool
  pub extra : Text

-- In a changeset `none` leaves the column alone.
pub record UpdateUser : Type 0 where
  pub is_deleted : Option Bool
  pub extra : Option Text

pub record Identity : Type 0 where
  pub uuid : Text
  pub user_id : Option Text
  pub ip_address : Text
  pub device_token : Option Text
  pub server_private_key : Bytes
  pub server_public_key : Bytes
  pub client_public_key : Bytes
  pub extra : Text
  pub is_confirmed : Bool
  pub created_at : ℕ
  pub updated_at : ℕ

pub record NewIdentity : Type 0 where
  pub uuid : Text
  pub user_id : Option Text
  pub ip_address : Text
  pub device_token : Option Text
  pub server_private_key : Bytes
  pub server_public_key : Bytes
  pub client_public_key : Bytes
  pub extra : Text
  pub is_confirmed : Bool

pub record UpdateIdentity : Type 0 where
  pub user_id : Option Text
  pub ip_address : Option Text
  pub device_token : Option Text
  pub client_public_key : Option Bytes
  pub extra : Option Text
  pub is_confirmed : Option Bool

pub record Group : Type 0 where
  pub uuid : Text
  pub user_id : Text
  pub name : Text
  pub extra : Text
  pub created_at : ℕ
  pub updated_at : ℕ

pub record NewGroup : Type 0 where
  pub uuid : Text
  pub user_id : Text
  pub name : Text
  pub extra : Text

pub record Password : Type 0 where
  pub uuid : Text
  pub group_id : Text
  pub pwd : Text
  pub name : Text
  pub extra : Text
  pub valid_since_days : ℤ
  pub created_at : ℕ
  pub updated_at : ℕ
  pub valid_since : ℕ

pub record NewPassword : Type 0 where
  pub uuid : Text
  pub group_id : Text
  pub pwd : Text
  pub name : Text
  pub extra : Text
  pub valid_since_days : ℤ
  pub valid_since : ℕ

pub record UpdatePassword : Type 0 where
  pub pwd : Option Text
  pub group_id : Option Text
  pub name : Option Text
  pub extra : Option Text
  pub valid_since_days : Option ℤ

-- Rows stand in the order of their insertion.
pub record Db : Type 0 where
  pub users : List User
  pub identities : List Identity
  pub groups : List Group
  pub passwords : List Password

abbrev pub empty_db : Db
empty_db = record { users = []; identities = []; groups = []; passwords = [] }
