-- ===== src/Backend/Schema.antt =====
-- Rows of the master database, packages/db/src/master/schema.ts, with the columns that the services
-- modelled here read or write. A timestamp column is the instant that it stands for, in milliseconds
-- since the epoch; NULL is `none`.
use argus_monitor.Prelude.{ℕ, String, Bool, Option, List}

pub record UserRow : Type 0 where
  pub id : String
  pub username : String
  pub display_name : String
  pub email : Option String
  pub password_hash : Option String
  pub auth_provider : String
  pub disabled : Bool
  pub is_owner : Bool
  pub is_system : Bool
  pub totp_enabled : Bool
  pub totp_secret : Option String
  pub totp_recovery : Option (List String)
  pub token_version : ℕ
  pub failed_login_count : ℕ
  pub locked_until : Option ℕ
  pub last_login_at : Option ℕ
  pub updated_at : ℕ

pub record UserGroupRow : Type 0 where
  pub user_id : String
  pub group_id : String

pub record GroupRoleRow : Type 0 where
  pub group_id : String
  pub role_id : String

pub record RolePermissionRow : Type 0 where
  pub role_id : String
  pub permission_id : String

pub record PermissionRow : Type 0 where
  pub id : String
  pub key : String

pub record UserAttributeRow : Type 0 where
  pub user_id : String
  pub key : String
  pub value : String

pub record RefreshTokenRow : Type 0 where
  pub id : String
  pub user_id : String
  pub token_hash : String
  pub expires_at : ℕ
  pub revoked_at : Option ℕ
  pub user_agent : Option String
  pub ip : Option String
  pub last_used_at : Option ℕ
  pub created_at : ℕ

-- The column of the pairing code is NOT NULL; here it may be `none`, which no operation writes.
pub record WallDeviceRow : Type 0 where
  pub id : String
  pub name : String
  pub status : String
  pub pairing_code : Option String
  pub fingerprint : Option String
  pub token_hash : Option String
  pub layout_id : Option String
  pub group_id : Option String
  pub last_seen_at : Option ℕ
  pub approved_at : Option ℕ
  pub created_at : ℕ
  pub updated_at : ℕ

pub record WallDeviceGroupRow : Type 0 where
  pub id : String
  pub name : String
  pub layout_id : Option String
  pub created_at : ℕ
  pub updated_at : ℕ

pub record AgentCommandRow : Type 0 where
  pub id : String
  pub agent_id : String
  pub kind : String
  pub payload : Option String
  pub status : String
  pub sent_at : Option ℕ
  pub acked_at : Option ℕ
  pub created_at : ℕ

pub record WallLayoutRow : Type 0 where
  pub id : String
  pub name : String
  pub description : String
  pub is_default : Bool
  pub is_system : Bool
  pub layout : String
  pub rotate_sec : ℕ
  pub template : String
  pub panel_config : String
  pub created_at : ℕ
  pub updated_at : ℕ

pub record RoleRow : Type 0 where
  pub id : String
  pub name : String
  pub description : String
  pub is_system : Bool
  pub updated_at : ℕ

pub record GroupRow : Type 0 where
  pub id : String
  pub name : String
  pub description : String
  pub is_system : Bool
  pub updated_at : ℕ
