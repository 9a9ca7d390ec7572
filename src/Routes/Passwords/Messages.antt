-- ===== src/Routes/Passwords/Messages.antt =====
-- The bodies of the requests and the answers of src/routes/passwords.rs.
use password_manager_server.Prelude.{Option, Bool, Text, ℤ}

pub record ListParams : Type 0 where
  pub expired : Option Bool
  pub take : Option ℤ
  pub size : Option ℤ

pub record PasswordEntry : Type 0 where
  pub uuid : Text
  pub pwd : Text
  pub expires : ℤ
  pub created_at : Text
  pub updated_at : Text
  pub valid_since_days : ℤ

pub record GroupInfo : Type 0 where
  pub name : Text
  pub extra : Text

pub record PasswordDetail : Type 0 where
  pub uuid : Text
  pub pwd : Text
  pub name : Text
  pub extra : Text
  pub expires : ℤ
  pub created_at : Text
  pub updated_at : Text
  pub valid_since_days : ℤ
  pub group : GroupInfo

pub record CreatePasswordRequest : Type 0 where
  pub pwd : Text
  pub group_id : Text
  pub extra : Option Text
  pub name : Option Text
  pub valid_since_days : Option ℤ

pub record UpdatePasswordRequest : Type 0 where
  pub pwd : Text
  pub group_id : Text
  pub extra : Option Text
  pub name : Option Text
