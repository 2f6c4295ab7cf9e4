-- ===== src/Adapter/Forgotten.antt =====
-- crates/easybot-core/src/adapter/manager.rs: a platform without a saved configuration stays without
-- one through the rounds of the monitor, which only examine other platforms.
use easy_bot.Base.{
  ◌≡◌, refl, sym, ap, ◌∙◌, inl, inr, String, false, none, List, lookup, insert, contains_key,
  lookup-insert, lookup-remove, str_eq, Bool-cases, Option-cases, Sum-cases,
}
use easy_bot.Adapter.Reconnect.{TextOps}
use easy_bot.Adapter.Manager.{
  PlatformAdapter, AdapterManager, launched, Started, restored, launch, start, stop, connected_ok,
  connected_failed, land, succeeded, finish_connect,
}
use easy_bot.Adapter.Cases.{Answer-cases}
use easy_bot.Adapter.Lost.{stop-configs}

module _ {C A K : Type 0} (ops : PlatformAdapter C A K) (text : TextOps) where
  -- The registry makes adapters that keep the name they were asked for.
  abbrev pub Named : Type 0
  Named =
      ((q : String) (c : C) (a : A)
        → ops.create q c ≡ inl a
        → ops.platform_name (ops.init a c).0 ≡ q)
      × ((a : A) (k : K) → ops.platform_name (ops.restore_cursor_state a k) ≡ ops.platform_name a)

  restored-name :
      (m : AdapterManager C A K) (name : String) (a : A)
      → Named
      → ops.platform_name (restored ops text m name a) ≡ ops.platform_name a
  restored-name m name a (created, kept) = elim (Option-cases (lookup name m.cursor_states)) [
    | inl e ↦ rw (e, restored) refl
    | inr (k, e) ↦ rw (e, restored) (kept a k)
  ]

  abbrev started : A → C → Started ops text
  started a c = launched a c

  launched-inj : {a b : A} {c d : C} → started a c ≡ started b d → a ≡ b
  launched-inj h = cc h

  launch-name :
      (m : AdapterManager C A K) (a b : A) (c d : C)
      → Named
      → (launch ops text m a c).1 ≡ launched b d
      → ops.platform_name b ≡ ops.platform_name a
  unfolding launch
  launch-name m a b c d named h =
      elim (Bool-cases (contains_key (ops.platform_name a) m.adapters)) [
        | inl e ↦ absurd (cc (rw (e, launch) at h))
        | inr e ↦ elim (Bool-cases (contains_key (ops.platform_name a) m.pending)) [
          | inl f ↦ absurd (cc (rw (e, f, launch) at h))
          | inr f ↦
              sym (ap ops.platform_name (launched-inj (rw (e, f, launch) at h)))
              ∙ restored-name m (ops.platform_name a) a named
        ]
      ]

  pub start-name :
      (m : AdapterManager C A K) (q : String) (given : C) (b : A) (d : C)
      → Named
      → (start ops text m q given).1 ≡ launched b d
      → ops.platform_name b ≡ q
  unfolding start
  start-name m q given b d named h =
      let config = ops.inject_credentials q given in
      elim (Sum-cases (ops.create q config)) [
        | inr (msg, e) ↦ absurd (cc (rw (e, start) at h))
        | inl (made, e) ↦ elim (Answer-cases (ops.init made config).1) [
          | inr (x, f) ↦ absurd (cc (rw (e, f, start) at h))
          | inl (r, f) ↦ elim (Bool-cases r.ok) [
            | inr g ↦ absurd (cc (rw (e, f, g, start) at h))
            | inl g ↦
                launch-name m (ops.init made config).0 b config d named (rw (e, f, g, start) at h)
                ∙ named.0 q config made e
          ]
        ]
      ]

  module _ (p : String) where
    -- The monitor has no configuration of the platform.
    abbrev pub IsForgotten : AdapterManager C A K → Type 0
    IsForgotten m = lookup p m.configs ≡ none

    insert-other :
        (q : String) (c : C) (configs : List (String × C))
        → str_eq q p ≡ false
        → lookup p configs ≡ none
        → lookup p (insert q c configs) ≡ none
    insert-other q c configs other h = lookup-insert q p c configs ∙ rw other h

    pub stop-IsForgotten :
        (m : AdapterManager C A K) (q : String)
        → str_eq q p ≡ false
        → IsForgotten m
        → IsForgotten (stop ops text m q)
    stop-IsForgotten m q other h =
        rw (stop-configs ops text m q) (lookup-remove q p m.configs ∙ rw other h)

    launch-IsForgotten :
        (m : AdapterManager C A K) (a : A) (c : C)
        → str_eq (ops.platform_name a) p ≡ false
        → IsForgotten m
        → IsForgotten (launch ops text m a c).0
    unfolding launch
    launch-IsForgotten m a c other h =
        elim (Bool-cases (contains_key (ops.platform_name a) m.adapters)) [
          | inl e ↦ rw (e, launch) h
          | inr e ↦ elim (Bool-cases (contains_key (ops.platform_name a) m.pending)) [
            | inl f ↦ rw (e, f, launch) h
            | inr f ↦ rw (e, f, launch) (insert-other (ops.platform_name a) c m.configs other h)
          ]
        ]

    pub start-IsForgotten :
        (m : AdapterManager C A K) (q : String) (given : C)
        → Named
        → str_eq q p ≡ false
        → IsForgotten m
        → IsForgotten (start ops text m q given).0
    unfolding start
    start-IsForgotten m q given named other h =
        let config = ops.inject_credentials q given in
        elim (Sum-cases (ops.create q config)) [
          | inr (msg, e) ↦ rw (e, start) h
          | inl (made, e) ↦ elim (Answer-cases (ops.init made config).1) [
            | inr (x, f) ↦ rw (e, f, start) h
            | inl (r, f) ↦ elim (Bool-cases r.ok) [
              | inr g ↦ rw (e, f, g, start) h
              | inl g ↦
                  rw (e, f, g, start)
                    (launch-IsForgotten m (ops.init made config).0 config
                      (rw (named.0 q config made e) other) h)
            ]
          ]
        ]

    pub finish_connect-IsForgotten :
        (m : AdapterManager C A K) (q : String) (a : A) (c : C)
        → str_eq q p ≡ false
        → IsForgotten m
        → IsForgotten (finish_connect ops text m q a c)
    unfolding finish_connect land connected_ok connected_failed
    finish_connect-IsForgotten m q a c other h = elim (Bool-cases (contains_key q m.pending)) [
      | inr e ↦ rw (e, finish_connect) h
      | inl e ↦ elim (Bool-cases (succeeded ops text (ops.connect a).1)) [
        | inl f ↦ rw (e, f, finish_connect) (insert-other q c m.configs other h)
        | inr f ↦ rw (e, f, finish_connect) h
      ]
    ]
