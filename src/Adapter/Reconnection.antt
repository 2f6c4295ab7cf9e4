-- ===== src/Adapter/Reconnection.antt =====
-- crates/easybot-core/src/adapter/manager.rs: `get_status` and `reconnect_adapter`. `in_time` says
-- whether the background connection of a reconnection ends within the 60 seconds that are waited
-- for it; no other call runs meanwhile.
use easy_bot.Base.{String, Bool, Option, none, some, if◌then◌else◌, lookup, contains_key}
use easy_bot.Error.{GatewayError, auth_failed, internal, transient}
use easy_bot.Adapter.Reconnect.{TextOps}
use Prim.Native.String
use easy_bot.Adapter.Manager.{
  AdapterState, connected, failed, ConnectErrorKind, transient_kind, permanent_kind, Answer, done,
  error, AdapterStatusSummary, adapter_reconnecting, adapter_reconnected, adapter_reconnect_failed,
  PlatformAdapter, AdapterManager, or_text, publish, launched, init_failed, refused, start,
  finish_connect, stop,
}

abbrev pub error_of_kind : Option ConnectErrorKind → String → GatewayError
error_of_kind none err = internal err
error_of_kind (some transient_kind) err = transient err
error_of_kind (some permanent_kind) err = auth_failed err

-- What a poll of the reconnection makes of a status; `none` goes on waiting.
abbrev pub poll_state :
    AdapterState → Option String → Option ConnectErrorKind → Option (Answer (Unit {0}))
poll_state connected last_error kind = some (done tt)
poll_state failed last_error kind = some (error (error_of_kind kind (or_text last_error "")))
poll_state _ last_error kind = none

module _ {C A K : Type 0} (ops : PlatformAdapter C A K) (text : TextOps) where
  -- A running adapter answers for itself; the cache answers for the others.
  unfoldable pub get_status : AdapterManager C A K → String → Option AdapterStatusSummary
  get_status m platform =
      if contains_key platform m.pending
      then lookup platform m.statuses
      else elim (lookup platform m.adapters) [
        | some adapter ↦ some (ops.status_summary adapter)
        | none ↦ lookup platform m.statuses
      ]

  unfoldable pub poll : AdapterManager C A K → String → Option (Answer (Unit {0}))
  unfolding get_status
  poll m platform = if contains_key platform m.pending then none else elim (get_status m platform) [
    | none ↦ none
    | some s ↦ poll_state s.state s.last_error (lookup platform m.last_connect_error_kind)
  ]

  -- The end of the wait: the first poll after the connection ended, or the deadline.
  unfoldable pub await :
      AdapterManager C A K
      → String
      → Option (Answer (Unit {0}))
      → AdapterManager C A K × Answer (Unit {0})
  await m platform (some (done u)) = (publish ops text m adapter_reconnected platform, done u)
  await m platform (some (error e)) =
      (publish ops text m adapter_reconnect_failed platform, error e)
  await m platform none = (
    publish ops text m adapter_reconnect_failed platform,
    error (internal (String.◌++◌ "Reconnect timeout for '" (String.◌++◌ platform "'"))),
  )

  -- The whole reconnection as one step: what other calls do while it sleeps and polls is left out.
  unfoldable pub reconnect_adapter :
      AdapterManager C A K → String → C → Bool → AdapterManager C A K × Answer (Unit {0})
  unfolding await poll
  reconnect_adapter m platform config in_time =
      let stopped_m = stop ops text (publish ops text m adapter_reconnecting platform) platform in
      let (m1, started) = start ops text stopped_m platform config in
      elim started [
        | launched adapter config' ↦
            if in_time
            then (let m2 = finish_connect ops text m1 (ops.platform_name adapter) adapter config' in
                await m2 platform (poll m2 platform))
            else await m1 platform none
        | init_failed e ↦ (
          publish ops text m1 adapter_reconnect_failed platform,
          error (internal (or_text e "unknown error")),
        )
        | refused e ↦ (publish ops text m1 adapter_reconnect_failed platform, error e)
      ]
