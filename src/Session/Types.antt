-- ===== src/Session/Types.antt =====
-- crates/easybot-core/src/types/session.rs: sessions and their filter. `M` is the type of metadata;
-- chat types and roles are kept by name, texts of messages as bytes, and times are milliseconds.
use easy_bot.Base.{ℕ, String, Bool, Option, List}

pub data ResetPolicy : Type 0 where
  never after_1h after_24h after_50_msgs daily manual : ResetPolicy

pub record SessionSource : Type 0 where
  pub platform : String
  pub chat_id : String
  pub chat_name : Option String
  pub chat_type : String
  pub user_id : Option String
  pub user_name : Option String
  pub is_bot : Bool
  pub user_username : Option String
  pub user_role : Option String

pub record Session (M : Type 0) : Type 0 where
  pub key : String
  pub platform : String
  pub chat_id : String
  pub thread_id : Option String
  pub created_at : ℕ
  pub updated_at : ℕ
  pub source : SessionSource
  pub reset_policy : ResetPolicy
  pub metadata : M
  pub last_message : Option (List ℕ)
  pub last_message_at : Option ℕ
  pub custom_name : Option String

pub record SessionFilter : Type 0 where
  pub platform : Option String
  pub active_within_minutes : Option ℕ
  pub limit : Option ℕ
  pub offset : Option ℕ

pub record SessionMutation (M : Type 0) : Type 0 where
  pub reset_policy : Option ResetPolicy
  pub metadata : Option M
  pub custom_name : Option (Option String)
