-- ===== src/Session/Mirror.antt =====
-- crates/easybot-core/src/session/manager.rs: what stands in the store while its writes succeed.
use easy_bot.Base.{
  ℕ, ◌<◌, ◌≡◌, refl, sym, ap, ◌∙◌, inl, inr, String, Bool, true, false, none, some, List, lookup,
  insert, remove, lookup-insert, lookup-remove, str_eq, eq_iff, arith, Bool-cases, Option-cases,
}
use easy_bot.Session.Types.{Session, SessionSource, SessionMutation}
use easy_bot.Session.Manager.{
  SessionManager, upsert_session, delete_session, keep, fresh_session, get_or_create, delete,
  update, too_large, or_kept,
}

-- Every session stands under its own key, and the store holds the sessions of the memory.
abbrev pub Synced : (M : Type 0) → SessionManager M → Type 0
Synced M m =
    (rows : List (String × Session M)) × (m.store ≡ some rows)
    × ((k : String) → lookup k rows ≡ lookup k m.sessions)
    × ((k : String) (s : Session M) → lookup k m.sessions ≡ some s → s.key ≡ k)

some-inj : {A : Type 0} {x y : A} → some x ≡ some y → x ≡ y
some-inj h = cc h

module _ {M : Type 0} where
  -- Two stores that are one cannot hold sessions of different times under a key.
  stale :
      (key : String) (s t : Session M) (rows rows' : List (String × Session M))
      → s.updated_at < t.updated_at
      → lookup key rows ≡ some s
      → some rows' ≡ some rows
      → lookup key rows' ≡ some t
      → ⊥
  stale key s t rows rows' late held one found =
      let both : some s ≡ some t =
        sym held
        ∙ sym (ap (λ (r : List (String × Session M)). lookup key r) (some-inj one))
        ∙ found in
      let times : s.updated_at ≡ t.updated_at =
        ap (λ (u : Session M). u.updated_at) (some-inj both) in
      omega (arith, late, times)

  insert-both :
      (key k : String) (s : Session M) (rows sessions : List (String × Session M))
      → lookup k rows ≡ lookup k sessions
      → lookup k (insert key s rows) ≡ lookup k (insert key s sessions)
  insert-both key k s rows sessions h =
      ground (arith, lookup-insert key k s rows, lookup-insert key k s sessions, h)

  keyed_after :
      (key k : String) (s t : Session M) (sessions : List (String × Session M))
      → s.key ≡ key
      → (lookup k sessions ≡ some t → t.key ≡ k)
      → lookup k (insert key s sessions) ≡ some t
      → t.key ≡ k
  keyed_after key k s t sessions e keyed g = elim (Bool-cases (str_eq key k)) [
    | inl at_key ↦
        let found : some s ≡ some t = sym (lookup-insert key k s sessions ∙ rw at_key refl) ∙ g in
        sym (ap (λ (u : Session M). u.key) (some-inj found)) ∙ e ∙ (eq_iff key k).0 at_key
    | inr other ↦ keyed (sym (lookup-insert key k s sessions ∙ rw other refl) ∙ g)
  ]

  keep-Synced :
      (m : SessionManager M) (key : String) (s : Session M)
      → s.key ≡ key
      → Synced M m
      → Synced M (keep true m key s)
  keep-Synced m key s e (rows, h, same, keyed) = (
    insert s.key s rows,
    ap (upsert_session true s) h,
    λ k.
        ap (λ (t : String). lookup k (insert t s rows)) e
        ∙ insert-both key k s rows m.sessions (same k),
    λ k t g. keyed_after key k s t m.sessions e (keyed k t) g,
  )

  pub delete-Synced :
      (m : SessionManager M) (key : String) → Synced M m → Synced M (delete true m key).0
  unfolding delete
  delete-Synced m key (rows, h, same, keyed) = elim (Option-cases (lookup key m.sessions)) [
    | inl e ↦ rw (e, delete) (rows, h, same, keyed)
    | inr (s, e) ↦
        rw (e, delete)
          (
            remove key rows,
            ap (delete_session true key) h,
            λ k. ground (arith, lookup-remove key k rows, lookup-remove key k m.sessions, same k),
            λ k t g. keyed k t (elim (Bool-cases (str_eq key k)) [
              | inl at_key ↦
                  let gone : lookup k (remove key m.sessions) ≡ none =
                    lookup-remove key k m.sessions ∙ rw at_key refl in
                  absurd (cc (sym g ∙ gone))
              | inr other ↦ sym (lookup-remove key k m.sessions ∙ rw other refl) ∙ g
            ]),
          )
  ]

  pub get_or_create-Synced :
      (empty : M) (m : SessionManager M) (key : String) (source : SessionSource) (now : ℕ)
      → Synced M m
      → Synced M (get_or_create empty true m key source now).0
  unfolding get_or_create
  get_or_create-Synced empty m key source now h = elim (Option-cases (lookup key m.sessions)) [
    | inl e ↦ rw (e, get_or_create) (keep-Synced m key (fresh_session empty key source now) refl h)
    | inr (s, e) ↦
        rw (e, get_or_create) (keep-Synced m key (record s { updated_at = now }) (h.3 key s e) h)
  ]

  pub update-Synced :
      (size : M → ℕ) (m : SessionManager M) (key : String) (mutation : SessionMutation M) (now : ℕ)
      → too_large size mutation.metadata ≡ false
      → Synced M m
      → Synced M (update size true m key mutation now).0
  unfolding update
  update-Synced size m key mutation now small h = elim (Option-cases (lookup key m.sessions)) [
    | inl e ↦ rw (e, update) h
    | inr (s, e) ↦ rw (e, small, update) (keep-Synced m key _ (h.3 key s e) h)
  ]

  -- Where the store holds the sessions of the memory, an update of a session at a later time that is
  -- rejected for the size of its metadata leaves the store with the old session under the key, while
  -- the session in memory has the new time and the new policy: after it the store does not hold the
  -- sessions of the memory.
  pub update-rejected :
      (size : M → ℕ) (stored : Bool) (m : SessionManager M) (key : String) (s : Session M)
      (mutation : SessionMutation M) (now : ℕ)
      → Synced M m
      → lookup key m.sessions ≡ some s
      → s.updated_at < now
      → too_large size mutation.metadata ≡ true
      → ((update size stored m key mutation now).1 ≡ none)
        × ((rows : List (String × Session M)) × ((update size stored m key mutation now).0.store
              ≡ some rows)
            × (lookup key rows ≡ some s))
        × (lookup key (update size stored m key mutation now).0.sessions
            ≡ some (record s {
              updated_at = now;
              reset_policy = or_kept mutation.reset_policy s.reset_policy;
            }))
        × ¬ Synced M (update size stored m key mutation now).0
  unfolding update
  update-rejected size stored m key s mutation now (rows, h, same, keyed) e late large =
      let changed : Session M = record s {
        updated_at = now;
        reset_policy = or_kept mutation.reset_policy s.reset_policy;
      } in
      let held : lookup key rows ≡ some s = same key ∙ e in
      let found : lookup key (insert key changed m.sessions) ≡ some changed =
        lookup-insert key key changed m.sessions ∙ ground (arith, eq_iff key key) in
      rw (e, large, update)
        (
          refl,
          (rows, h, held),
          found,
          λ (rows', h', same', keyed').
              stale key s changed rows rows' late held (sym h' ∙ h) (same' key ∙ found),
        )
