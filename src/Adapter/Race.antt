-- ===== src/Adapter/Race.antt =====
-- crates/easybot-core/src/adapter/manager.rs: calls that run between the halves of others.
use easy_bot.Base.{
  ◌≡◌, refl, ap, ◌∙◌, String, true, none, some, lookup, contains_key, contains_key-insert,
  lookup-insert, lookup-remove, eq_iff, arith,
}
use easy_bot.Adapter.Reconnect.{TextOps}
use easy_bot.Adapter.Manager.{
  PlatformAdapter, AdapterManager, connected_ok, succeeded, take_pending, land, enter_pending, stop,
}

module _ {C A K : Type 0} (ops : PlatformAdapter C A K) (text : TextOps) where
  landed :
      (m : AdapterManager C A K) (p : String) (a : A) (c : C)
      → succeeded ops text (ops.connect a).1 ≡ true
      → (lookup p (land ops text m p a c).adapters ≡ some (ops.connect a).0)
        × (lookup p (land ops text m p a c).configs ≡ some c)
  unfolding land connected_ok
  landed m p a c h =
      rw (h, land)
        (
          lookup-insert p p (ops.connect a).0 m.adapters ∙ ground (arith, eq_iff p p),
          lookup-insert p p c m.configs ∙ ground (arith, eq_iff p p),
        )

  entered :
      (m : AdapterManager C A K) (p : String) (c : C)
      → contains_key p (enter_pending ops text m p c).pending ≡ true
  entered m p c = contains_key-insert p p tt m.pending ∙ ground (arith, eq_iff p p)

  -- A stop of a pending platform looks at its pending entry alone.
  stopped_pending :
      (m : AdapterManager C A K) (p : String)
      → contains_key p m.pending ≡ true
      → ((stop ops text m p).adapters ≡ m.adapters) × (lookup p (stop ops text m p).configs ≡ none)
  unfolding stop
  stopped_pending m p h =
      rw (h, stop) (refl, lookup-remove p p m.configs ∙ ground (arith, eq_iff p p))

  -- Two races after which an adapter outlives the stop of its platform, whatever the manager is. A
  -- stop between the halves of the end of a successful connection leaves the adapter running, with
  -- its configuration. If a connection ends well after a second start has passed its guards and
  -- before it writes, the next stop removes the configuration, and the adapter runs on.
  pub overlapped_stop-outlived :
      (m : AdapterManager C A K) (p : String) (a : A) (c c' : C)
      → succeeded ops text (ops.connect a).1 ≡ true
      → ((lookup p (land ops text (stop ops text (take_pending ops text m p) p) p a c).adapters
            ≡ some (ops.connect a).0)
          × (lookup p (land ops text (stop ops text (take_pending ops text m p) p) p a c).configs
              ≡ some c))
        × ((lookup p
                (stop ops text
                  (enter_pending ops text (land ops text (take_pending ops text m p) p a c) p c')
                  p).adapters
              ≡ some (ops.connect a).0)
            × (lookup p
                  (stop ops text
                    (enter_pending ops text (land ops text (take_pending ops text m p) p a c) p c')
                    p).configs
                ≡ none))
  overlapped_stop-outlived m p a c c' h =
      let first = land ops text (take_pending ops text m p) p a c in
      let (kept, gone) =
        stopped_pending (enter_pending ops text first p c') p (entered first p c') in
      (
        landed (stop ops text (take_pending ops text m p) p) p a c h,
        (ap (lookup p) kept ∙ (landed (take_pending ops text m p) p a c h).0, gone),
      )
