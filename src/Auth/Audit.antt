-- ===== src/Auth/Audit.antt =====
-- crates/easybot-core/src/auth/api_key/audit.rs: the audit ledger, a chain of hashes. The hash is a
-- parameter; metadata are their JSON text, which is taken to survive a write and a read.
mod Intact
mod Growth
mod Tamper
mod Tests
use easy_bot.Base.{
  ℕ, suc, String, Bool, true, false, not, ◌&&◌, Option, none, some, List, [], ◌∷◌, ◌++◌,
  if◌then◌else◌, leb, length, str_eq, ◌==◌,
}

pub record AuditEvent : Type 0 where
  pub id : String
  pub timestamp : ℕ
  pub actor_id : String
  pub action : String
  pub resource : String
  pub metadata : String
  pub previous_hash : String
  pub event_hash : String

-- What the hash is taken of.
pub record Content : Type 0 where
  pub id : String
  pub timestamp : ℕ
  pub actor_id : String
  pub action : String
  pub resource : String
  pub metadata : String
  pub previous_hash : String

-- The rows of `audit_events` in the order of their row ids, and the row of `audit_chain_state`.
pub record AuditDb : Type 0 where
  pub rows : List AuditEvent
  pub anchor : Option (String × ℕ)

pub record AuditLedger : Type 0 where
  pub pool : Option AuditDb
  pub audit_events : List AuditEvent
  pub audit_head : Option String

-- The begin fails as the insert does.
pub data AuditStep : Type 0 where
  insert_event update_anchor commit : AuditStep

pub data AuditError : Type 0 where
  sql : AuditStep → AuditError
  anchor_mismatch : AuditError

pub data Recorded : Type 0 where
  recorded : AuditEvent → Recorded
  failed : AuditError → Recorded

abbrev pub genesis : String
genesis = "GENESIS"

abbrev pub or_genesis : Option String → String
or_genesis none = genesis
or_genesis (some h) = h

abbrev pub last_hash : String → List AuditEvent → String
last_hash h [] = h
last_hash h (e ∷ es) = last_hash e.event_hash es

abbrev pub content : AuditEvent → Content
content e = record {
  id = e.id;
  timestamp = e.timestamp;
  actor_id = e.actor_id;
  action = e.action;
  resource = e.resource;
  metadata = e.metadata;
  previous_hash = e.previous_hash;
}

abbrev pub event_of : Content → String → AuditEvent
event_of c h = record {
  id = c.id;
  timestamp = c.timestamp;
  actor_id = c.actor_id;
  action = c.action;
  resource = c.resource;
  metadata = c.metadata;
  previous_hash = c.previous_hash;
  event_hash = h;
}

abbrev pub previous_of : AuditLedger → String
previous_of l = elim (l.pool) [
  | some db ↦ or_genesis l.audit_head
  | none ↦ last_hash genesis l.audit_events
]

-- `ORDER BY timestamp, rowid`
unfoldable pub place : AuditEvent → List AuditEvent → List AuditEvent
place e [] = e ∷ []
place e (f ∷ fs) = if leb e.timestamp f.timestamp then e ∷ f ∷ fs else f ∷ place e fs

unfoldable pub ordered : List AuditEvent → List AuditEvent
unfolding place
ordered [] = []
ordered (e ∷ es) = place e (ordered es)

abbrev pub anchor_moves : String → String → Option (String × ℕ) → Option (String × ℕ)
anchor_moves previous head none = none
anchor_moves previous head (some (h, n)) = if str_eq h previous then some (head, suc n) else none

module _ (audit_hash : Content → String) where
  -- The transaction: the event, and the anchor where it still stands at the previous hash.
  unfoldable pub append_event :
      (AuditStep → Bool) → AuditDb → AuditEvent → AuditDb × Option AuditError
  append_event fault db e =
      if fault insert_event
      then (db, some (sql insert_event))
      else if fault update_anchor
      then (db, some (sql update_anchor))
      else elim (anchor_moves e.previous_hash e.event_hash db.anchor) [
        | none ↦ (db, some anchor_mismatch)
        | some anchor ↦
            if fault commit
            then (db, some (sql commit))
            else (record { rows = db.rows ++ e ∷ []; anchor = some anchor }, none)
      ]

  -- The actor, action and so on stand in `given`, whose previous hash is not used.
  abbrev pub new_event : AuditLedger → Content → AuditEvent
  new_event l given =
      let chained = record given { previous_hash = previous_of l } in
      event_of chained (audit_hash chained)

  unfoldable pub record_audit : (AuditStep → Bool) → AuditLedger → Content → AuditLedger × Recorded
  unfolding append_event
  record_audit fault l given =
      let e = new_event l given in
      elim (l.pool) [
        | none ↦ (record l { audit_events = l.audit_events ++ e ∷ [] }, recorded e)
        | some db ↦ elim (append_event fault db e).1 [
          | some error ↦ (l, failed error)
          | none ↦ (
            record l { pool = some (append_event fault db e).0; audit_head = some e.event_hash },
            recorded e,
          )
        ]
      ]

  abbrev pub audit_event_follows : AuditEvent → String → Bool
  audit_event_follows e previous =
      str_eq e.previous_hash previous && str_eq e.event_hash (audit_hash (content e))

  -- The last hash of a chain that begins behind `previous`, if it is one.
  unfoldable pub chain_end : String → List AuditEvent → Option String
  chain_end previous [] = some previous
  chain_end previous (e ∷ es) =
      let rest = chain_end e.event_hash es in if audit_event_follows e previous then rest else none

  abbrev pub anchored : Option String → ℕ → Option (String × ℕ) → Bool
  anchored none n anchor = false
  anchored (some head) n none = false
  anchored (some head) n (some (h, count)) = str_eq h head && count == n

  abbrev pub is_some : Option String → Bool
  is_some none = false
  is_some (some h) = true

  unfoldable pub verify_audit_chain : AuditLedger → Bool
  unfolding chain_end
  verify_audit_chain l = elim (l.pool) [
    | some db ↦ anchored (chain_end genesis (ordered db.rows)) (length db.rows) db.anchor
    | none ↦ is_some (chain_end genesis l.audit_events)
  ]

-- What `load_from_db` takes from the anchor at the start of the program.
abbrev pub loaded_head : Option (String × ℕ) → Option String
loaded_head none = none
loaded_head (some (h, n)) = if n == 0 then none else some h

abbrev pub restarted : AuditDb → AuditLedger
restarted db = record { pool = some db; audit_events = []; audit_head = loaded_head db.anchor }
