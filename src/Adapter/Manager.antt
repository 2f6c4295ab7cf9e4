-- ===== src/Adapter/Manager.antt =====
-- crates/easybot-core/src/adapter/manager.rs: the state of the adapter manager, `start` with its
-- background task, `stop`, and `reconnect_adapter`. `C` is the type of configurations, `A` that of
-- adapter instances, `K` that of saved cursors; an instance holds what the network will answer, so
-- its methods are functions. Published events are kept by name and platform; display names and the
-- counters of messages are left out of a status.
use easy_bot.Base.{
  ℕ, String, Bool, true, false, Option, none, some, List, [], ◌∷◌, if◌then◌else◌, lookup, insert,
  remove, contains_key, ◌⊎◌, inl, inr,
}
use Prim.Native.String
use easy_bot.Error.{GatewayError, internal, platform_not_found, display}
use easy_bot.Adapter.Reconnect.{TextOps, is_transient_error}

pub data AdapterState : Type 0 where
  created starting connecting connected reconnecting failed stopped : AdapterState

pub data HealthStatus : Type 0 where
  healthy degraded down : HealthStatus

pub data ConnectErrorKind : Type 0 where
  transient_kind permanent_kind : ConnectErrorKind

pub data Answer {ℓ} (T : Type ℓ) : Type ℓ where
  done : T → Answer T
  error : GatewayError → Answer T

pub record InitResult : Type 0 where
  pub ok : Bool
  pub error : Option String

pub record ConnectResult : Type 0 where
  pub ok : Bool
  pub error : Option String
  pub error_kind : Option ConnectErrorKind

pub record AdapterStatusSummary : Type 0 where
  pub state : AdapterState
  pub connected : Bool
  pub health : Option HealthStatus
  pub last_error : Option String
  pub uptime : Option ℕ

pub record ReconnectInfo : Type 0 where
  pub permanent_failure : Bool
  pub retry_attempt : ℕ
  pub next_retry_in : Option ℕ

pub data EventType : Type 0 where
  adapter_connected adapter_disconnected adapter_error : EventType
  adapter_reconnecting adapter_reconnected adapter_reconnect_failed : EventType

-- The trait of the adapters, and the registry that makes them.
pub record PlatformAdapter (C A K : Type 0) : Type 0 where
  pub create : String → C → A ⊎ String
  pub inject_credentials : String → C → C
  pub platform_name : A → String
  pub init : A → C → A × Answer InitResult
  pub connect : A → A × Answer ConnectResult
  pub disconnect : A → A
  pub health : A → HealthStatus
  pub status_summary : A → AdapterStatusSummary
  pub retry_transport : A → A × Answer Bool
  pub cursor_state : A → Option K
  pub restore_cursor_state : A → K → A

-- A key of `pending` is a platform whose background task is connecting.
pub record AdapterManager (C A K : Type 0) : Type 0 where
  pub adapters : List (String × A)
  pub pending : List (String × Unit {0})
  pub statuses : List (String × AdapterStatusSummary)
  pub configs : List (String × C)
  pub last_connect_error_kind : List (String × ConnectErrorKind)
  pub reconnect_info : List (String × ReconnectInfo)
  pub cursor_states : List (String × K)
  pub events : List (EventType × String)

unfoldable pub new : {C A K : Type 0} → AdapterManager C A K
new = record {
  adapters = [];
  pending = [];
  statuses = [];
  configs = [];
  last_connect_error_kind = [];
  reconnect_info = [];
  cursor_states = [];
  events = [];
}

abbrev pub status_of : AdapterState → Option String → AdapterStatusSummary
status_of state last_error = record {
  state = state;
  connected = false;
  health = none;
  last_error = last_error;
  uptime = none;
}

-- `if let Some(status) = statuses.get_mut(platform)`
abbrev pub update_status :
    String
    → (AdapterStatusSummary → AdapterStatusSummary)
    → List (String × AdapterStatusSummary)
    → List (String × AdapterStatusSummary)
update_status platform f statuses = elim (lookup platform statuses) [
  | none ↦ statuses
  | some s ↦ insert platform (f s) statuses
]

abbrev pub set_state : AdapterState → Bool → AdapterStatusSummary → AdapterStatusSummary
set_state state is_connected s = record s { state = state; connected = is_connected }

abbrev pub or_text : Option String → String → String
or_text none d = d
or_text (some t) d = t

-- `ensure_self_ref` succeeds once the program has set the reference up, which is assumed here.
module _ {C A K : Type 0} (ops : PlatformAdapter C A K) (text : TextOps) where
  -- `Adapter '{}' is …`
  abbrev pub quoted : String → String → String
  quoted name rest = String.◌++◌ "Adapter '" (String.◌++◌ name (String.◌++◌ "' " rest))

  abbrev pub publish : AdapterManager C A K → EventType → String → AdapterManager C A K
  publish m e platform = record m { events = (e, platform) ∷ m.events }

  abbrev pub restored : AdapterManager C A K → String → A → A
  restored m name adapter = elim (lookup name m.cursor_states) [
    | none ↦ adapter
    | some saved ↦ ops.restore_cursor_state adapter saved
  ]

  -- What `start` returns: `launched` hands the background task its adapter and configuration.
  pub data Started : Type 0 where
    launched : A → C → Started
    init_failed : Option String → Started
    refused : GatewayError → Started

  -- What `start` writes behind its two guards.
  abbrev pub enter_pending : AdapterManager C A K → String → C → AdapterManager C A K
  enter_pending m name config = record m {
    statuses = insert name (status_of connecting none) m.statuses;
    pending = insert name tt m.pending;
    configs = insert name config m.configs;
  }

  -- The part of `start` behind a successful `init`, without another call between the guards, which
  -- take a lock each, and the writes.
  unfoldable pub launch : AdapterManager C A K → A → C → AdapterManager C A K × Started
  launch m adapter config =
      let name = ops.platform_name adapter in
      if contains_key name m.adapters
      then (m, refused (internal (quoted name "is already running")))
      else (if contains_key name m.pending
          then (m, refused (internal (quoted name "is already connecting")))
          else (enter_pending m name config, launched (restored m name adapter) config))

  -- A whole call, without another one while it runs.
  unfoldable pub start : AdapterManager C A K → String → C → AdapterManager C A K × Started
  unfolding launch
  start m platform given =
      let config = ops.inject_credentials platform given in
      elim (ops.create platform config) [
        | inr msg ↦ (m, refused (platform_not_found (String.◌++◌ platform (String.◌++◌ ": " msg))))
        | inl made ↦ elim (ops.init made config).1 [
          | error e ↦ (m, refused e)
          | done r ↦ if r.ok then launch m (ops.init made config).0 config else (
            record m {
              events = (adapter_error, platform) ∷ m.events;
              statuses =
                  insert (ops.platform_name made) (status_of failed (some (or_text r.error "")))
                    m.statuses;
            },
            init_failed r.error,
          )
        ]
      ]

  abbrev pub succeeded : Answer ConnectResult → Bool
  succeeded (done r) = r.ok
  succeeded (error e) = false

  abbrev pub connect_text : Answer ConnectResult → String
  connect_text (done r) = or_text r.error "Unknown error"
  connect_text (error e) = display text.show e

  -- An error of `connect` itself is classified only where it is plainly transient.
  abbrev pub kind_of : Answer ConnectResult → Option ConnectErrorKind
  kind_of (done r) = r.error_kind
  kind_of (error e) = if is_transient_error e then some transient_kind else none

  abbrev pub note_kind :
      String
      → Option ConnectErrorKind
      → List (String × ConnectErrorKind)
      → List (String × ConnectErrorKind)
  note_kind name none kinds = kinds
  note_kind name (some k) kinds = insert name k kinds

  abbrev pub mark_connected : AdapterStatusSummary → AdapterStatusSummary
  mark_connected s = record s {
    state = connected;
    connected = true;
    last_error = none;
    uptime = some 0;
  }

  abbrev pub mark_failed : String → AdapterStatusSummary → AdapterStatusSummary
  mark_failed msg s = record s { state = failed; connected = false; last_error = some msg }

  unfoldable pub connected_ok : AdapterManager C A K → String → A → C → AdapterManager C A K
  connected_ok m name adapter config = record m {
    last_connect_error_kind = remove name m.last_connect_error_kind;
    reconnect_info = remove name m.reconnect_info;
    adapters = insert name adapter m.adapters;
    statuses = update_status name mark_connected m.statuses;
    configs = insert name config m.configs;
    events = (adapter_connected, name) ∷ m.events;
  }

  unfoldable pub connected_failed :
      AdapterManager C A K → String → Answer ConnectResult → AdapterManager C A K
  connected_failed m name r = record m {
    last_connect_error_kind = note_kind name (kind_of r) m.last_connect_error_kind;
    statuses = update_status name (mark_failed (connect_text r)) m.statuses;
    events = (adapter_error, name) ∷ m.events;
  }

  -- The two halves of the end of a background task, between which other calls may run: it takes the
  -- pending entry of its platform, and it stores its adapter or the failure.
  abbrev pub take_pending : AdapterManager C A K → String → AdapterManager C A K
  take_pending m name = record m { pending = remove name m.pending }

  unfoldable pub land : AdapterManager C A K → String → A → C → AdapterManager C A K
  unfolding connected_ok connected_failed
  land m name adapter config =
      if succeeded (ops.connect adapter).1
      then connected_ok m name (ops.connect adapter).0 config
      else connected_failed m name (ops.connect adapter).1

  -- The whole end, without another call between its halves. Nothing happens if `stop` has taken the
  -- platform back.
  unfoldable pub finish_connect : AdapterManager C A K → String → A → C → AdapterManager C A K
  unfolding land
  finish_connect m name adapter config =
      if contains_key name m.pending then land (take_pending m name) name adapter config else m

  abbrev pub save_cursor : String → Option K → List (String × K) → List (String × K)
  save_cursor name none cursors = cursors
  save_cursor name (some k) cursors = insert name k cursors

  unfoldable pub stop_running : AdapterManager C A K → String → A → AdapterManager C A K
  stop_running m platform adapter = record m {
    adapters = remove platform m.adapters;
    configs = remove platform m.configs;
    cursor_states =
        save_cursor platform (ops.cursor_state (ops.disconnect adapter)) m.cursor_states;
    statuses = update_status platform (set_state stopped false) m.statuses;
    events = (adapter_disconnected, platform) ∷ m.events;
  }

  unfoldable pub stop : AdapterManager C A K → String → AdapterManager C A K
  unfolding stop_running
  stop m platform =
      let cleared : AdapterManager C A K = record m {
        last_connect_error_kind = remove platform m.last_connect_error_kind;
        reconnect_info = remove platform m.reconnect_info;
      } in
      if contains_key platform m.pending
      then record cleared {
        pending = remove platform m.pending;
        configs = remove platform m.configs;
        statuses = update_status platform (set_state stopped false) m.statuses;
        events = (adapter_disconnected, platform) ∷ m.events;
      }
      else elim (lookup platform m.adapters) [
        | none ↦ record cleared { configs = remove platform m.configs }
        | some adapter ↦ stop_running cleared platform adapter
      ]
