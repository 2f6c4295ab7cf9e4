-- ===== src/Persist/Bridge.antt =====
-- crates/easybot-core/src/session/bridge.rs: what an inbound message does to the sessions. Ids are
-- bytes, `as_text` reads bytes as a text; `enrich` is `enrich_session`, which answers nothing where
-- there is no adapter. `none` is the end of the whole program: a panic aborts it in the release
-- profile of Cargo.toml (`panic = "abort"`), and the one modelled is that of the summary.
use easy_bot.Base.{ℕ, String, Bool, Option, none, some, List, [], ◌∷◌, if◌then◌else◌, lookup}
use easy_bot.Session.Types.{SessionSource}
use easy_bot.Session.Key.{build_key}
use easy_bot.Session.Manager.{
  SessionManager, get_or_create, update_last_message, update_source_fields, is_enriched,
}

pub data MessageType : Type 0 where
  text image audio video file sticker animation rich_text interactive share location : MessageType
  contact link system unknown : MessageType

pub record InboundMessage : Type 0 where
  pub platform : List ℕ
  pub chat_id : List ℕ
  pub thread_id : Option (List ℕ)
  pub chat_name : Option String
  pub chat_type : String
  pub sender_id : String
  pub sender_name : Option String
  pub sender_is_bot : Bool
  pub sender_username : Option String
  pub sender_role : Option String
  pub msg_type : MessageType
  pub body : Option (List ℕ)
  pub timestamp : ℕ

-- The UTF-8 texts [图片], [音频], [视频], [文件], [贴纸] and [卡片].
abbrev pub placeholder : MessageType → Option (List ℕ)
placeholder image = some (91 ∷ 229 ∷ 155 ∷ 190 ∷ 231 ∷ 137 ∷ 135 ∷ 93 ∷ [])
placeholder audio = some (91 ∷ 233 ∷ 159 ∷ 179 ∷ 233 ∷ 162 ∷ 145 ∷ 93 ∷ [])
placeholder video = some (91 ∷ 232 ∷ 167 ∷ 134 ∷ 233 ∷ 162 ∷ 145 ∷ 93 ∷ [])
placeholder file = some (91 ∷ 230 ∷ 150 ∷ 135 ∷ 228 ∷ 187 ∷ 182 ∷ 93 ∷ [])
placeholder sticker = some (91 ∷ 232 ∷ 180 ∷ 180 ∷ 231 ∷ 186 ∷ 184 ∷ 93 ∷ [])
placeholder interactive = some (91 ∷ 229 ∷ 141 ∷ 161 ∷ 231 ∷ 137 ∷ 135 ∷ 93 ∷ [])
placeholder _ = none

abbrev pub message_text : InboundMessage → Option (List ℕ)
message_text msg = elim (msg.body) [ none ↦ placeholder msg.msg_type | some t ↦ some t ]

abbrev pub key_of : (List ℕ → String) → InboundMessage → String
key_of as_text msg = as_text (build_key msg.platform msg.chat_id msg.thread_id)

abbrev pub source_of : (List ℕ → String) → InboundMessage → SessionSource
source_of as_text msg = record {
  platform = as_text msg.platform;
  chat_id = as_text msg.chat_id;
  chat_name = msg.chat_name;
  chat_type = msg.chat_type;
  user_id = some msg.sender_id;
  user_name = msg.sender_name;
  is_bot = msg.sender_is_bot;
  user_username = msg.sender_username;
  user_role = msg.sender_role;
}

module _ {M : Type 0} (as_text : List ℕ → String)
    (enrich : String → SessionSource → Option SessionSource) where
  -- The last message.
  abbrev pub note_message :
      Bool → SessionManager M → String → Option (List ℕ) → ℕ → Option (SessionManager M)
  note_message stored m key none timestamp = some m
  note_message stored m key (some t) timestamp =
      elim (update_last_message stored m key (some t) timestamp) [
        | none ↦ none
        | some out ↦ some out.0
      ]

  unfoldable pub enriched : Bool → SessionManager M → String → String → ℕ → SessionManager M
  enriched stored m key platform now = elim (lookup key m.sessions) [
    | none ↦ m
    | some current ↦ elim (enrich platform current.source) [
      | none ↦ m
      | some source ↦
          if is_enriched source then (update_source_fields stored m key source now).0 else m
    ]
  ]

  unfoldable pub handle_inbound :
      M → Bool → SessionManager M → InboundMessage → ℕ → Option (SessionManager M)
  unfolding enriched
  handle_inbound empty stored m msg now =
      let key = key_of as_text msg in
      let opened = (get_or_create empty stored m key (source_of as_text msg) now).0 in
      elim (note_message stored opened key (message_text msg) msg.timestamp) [
        | none ↦ none
        | some noted ↦ some (enriched stored noted key (as_text msg.platform) now)
      ]

  -- The loop of the background task, over the messages of the bus with their times.
  unfoldable pub handle_all :
      M → Bool → SessionManager M → List (InboundMessage × ℕ) → Option (SessionManager M)
  unfolding handle_inbound
  handle_all empty stored m [] = some m
  handle_all empty stored m (e ∷ es) = elim (handle_inbound empty stored m e.0 e.1) [
    | none ↦ none
    | some next ↦ handle_all empty stored next es
  ]
