-- ===== src/Auth/Outcomes.antt =====
-- What revoking, deleting and reconciling keys do to the database and to the memory.
use easy_bot.Base.{
  ℕ, count, ◌≡◌, refl, sym, subst, ◌≢◌, String, Bool, true, some, List, [], ◌∷◌, map, ◌⊎◌, arith,
  not, ◌&&◌, Option-cases, All-find, find-holds, inl, inr, eq_iff, find, retain,
}
use easy_bot.Auth.Types.{
  StoredKey, AuthDb, ApiKeyManager, DbStep, ok, err, Crypto, KeyError, Result-cases, invalid_key,
  RotationState, created, prepared, RotationRow,
}
use easy_bot.Auth.Database.{has_id, live_id, dead_id, mark_revoked}
use easy_bot.Auth.Authenticate.{promote_verified_loaded_key}
use easy_bot.Auth.Revoke.{revoke_key, delete_key}
use easy_bot.Auth.Rotation.{
  Action, cancel, complete, other, is_transition, without_transition, target_of, reconcile_rows,
  reconcile_rotation_transition,
}
use easy_bot.Auth.Gone.{Gone}
use easy_bot.Auth.Revocation.{revoke_key-IsGone}
use easy_bot.Auth.Steps.{reconcile_rows_ok}

count-retain :
    (q p : StoredKey → Bool) (rows : List StoredKey)
    → count (λ s. q s && p s) (retain p rows) ≡ count (λ s. q s && p s) rows
count-retain q p [] = refl
count-retain q p (s ∷ rows) = ground (arith, count-retain q p rows)

count-retain-not :
    (p : StoredKey → Bool) (rows : List StoredKey) → count p (retain (λ s. not (p s)) rows) ≡ 0
count-retain-not p [] = refl
count-retain-not p (s ∷ rows) = ground (arith, count-retain-not p rows)

-- The live rows of another id are not touched by marking an id.
count-mark_other :
    (id other_id : String) (rows : List StoredKey)
    → other_id ≢ id
    → count (live_id other_id) (map (mark_revoked id) rows) ≡ count (live_id other_id) rows
count-mark_other id other_id [] ne = refl
count-mark_other id other_id (s ∷ rows) ne =
    ground
      (arith, eq_iff s.info.id id, eq_iff s.info.id other_id, count-mark_other id other_id rows)

count-mark_self :
    (id : String) (rows : List StoredKey) → count (live_id id) (map (mark_revoked id) rows) ≡ 0
count-mark_self id [] = refl
count-mark_self id (s ∷ rows) = ground (arith, count-mark_self id rows)

module _ (fault : DbStep → Bool) where
  -- A revocation or a deletion that reports an error has changed nothing.
  pub revoke_or_delete_error :
      (m m' : ApiKeyManager) (id : String) (x : KeyError)
      → (revoke_key fault m id ≡ (m', err x)) ⊎ (delete_key fault m id ≡ (m', err x))
      → m' ≡ m
  unfolding revoke_key delete_key
  revoke_or_delete_error m m' id x (inl e) = ground arith
  revoke_or_delete_error m m' id x (inr e) = ground arith

  -- A deletion removes revoked rows of the id alone: every other row is still there, as often as it
  -- was, and no revoked row of the id is left.
  pub delete_key_rows :
      (m m' : ApiKeyManager) (id : String) (db db' : AuthDb) (done : Bool) (q : StoredKey → Bool)
      → m.pool ≡ some db
      → m'.pool ≡ some db'
      → delete_key fault m id ≡ (m', ok done)
      → (count (λ s. q s && not (dead_id id s)) db'.api_keys
          ≡ count (λ s. q s && not (dead_id id s)) db.api_keys)
        × (count (dead_id id) db'.api_keys ≡ 0)
  unfolding delete_key
  delete_key_rows m m' id db db' done q pool pool' e =
      let rows : db'.api_keys ≡ retain (λ s. not (dead_id id s)) db.api_keys =
        ground (arith, pool, pool') in
      (
        rw rows (count-retain q (λ s. not (dead_id id s)) db.api_keys),
        rw rows (count-retain-not (dead_id id) db.api_keys),
      )

module _ (crypto : Crypto) (fault fault' : DbStep → Bool) where
  -- A raw key that was verified against a copy of a stored key, taken before that key was revoked, is
  -- still denied: the promotion looks at the present state.
  pub promote-revoke :
      (m m' : ApiKeyManager) (id index : String) (now : ℕ)
      → revoke_key fault m id ≡ (m', ok true)
      → promote_verified_loaded_key crypto fault' m' index id now ≡ (m', err invalid_key)
  unfolding promote_verified_loaded_key
  promote-revoke m m' id index now e = elim (Option-cases (find (has_id id) m'.loaded)) [
    | inl absent ↦ rw (absent, promote_verified_loaded_key)
    | inr (current, found) ↦
        let same = (eq_iff current.info.id id).0 (find-holds (has_id id) m'.loaded current found) in
        let gone =
          All-find (Gone id) (has_id id) m'.loaded current
            (revoke_key-IsGone fault id m m' e).in_loaded found in
        ground (arith, found, same, gone)
  ]

  reconcile_rows_target :
      (db db' : AuthDb) (source replacement target : String) (action : Action)
      → reconcile_rows fault db source replacement action ≡ ok (db', target)
      → (t : RotationRow) × (find (is_transition source replacement) db.transitions ≡ some t)
        × (target_of action t.state source replacement ≡ ok target)
  unfolding reconcile_rows
  reconcile_rows_target db db' source replacement target action e =
      elim (Option-cases (find (is_transition source replacement) db.transitions)) [
        | inl absent ↦ absurd (ground (arith, absent))
        | inr (t, found) ↦ elim (Result-cases (target_of action t.state source replacement)) [
          | inl (target', allowed) ↦ (t, found, ground (arith, found, allowed))
          | inr (x, refused) ↦ absurd (ground (arith, found, refused))
        ]
      ]

  target_of_cases :
      (action : Action) (state : RotationState) (source replacement target : String)
      → target_of action state source replacement ≡ ok target
      → (action ≡ cancel) × (state ≡ created) × (target ≡ replacement)
        ⊎ (action ≡ complete) × (state ≡ prepared) × (target ≡ source)
  unfolding target_of
  target_of_cases cancel created source replacement target e = ground arith
  target_of_cases cancel prepared source replacement target e = absurd (cc e)
  target_of_cases complete created source replacement target e = absurd (cc e)
  target_of_cases complete prepared source replacement target e = ground arith
  target_of_cases other created source replacement target e = absurd (cc e)
  target_of_cases other prepared source replacement target e = absurd (cc e)

  -- A reconciliation that succeeds ends the transition with one of its two keys live as it was: a
  -- cancelled one revokes the replacement, and only before the preparation; a completed one revokes
  -- the source, and only after it.
  pub reconcile_outcome :
      (m m' : ApiKeyManager) (source replacement : String) (action : Action) (db db' : AuthDb)
      → source ≢ replacement
      → m.pool ≡ some db
      → m'.pool ≡ some db'
      → reconcile_rotation_transition fault m source replacement action ≡ (m', ok tt)
      → (t : RotationRow) × (find (is_transition source replacement) db.transitions ≡ some t)
        × (db'.transitions ≡ without_transition source replacement db.transitions)
        × ((action ≡ cancel)
              × (t.state ≡ created)
              × (count (live_id replacement) db.api_keys ≡ 1)
              × (count (live_id replacement) db'.api_keys ≡ 0)
              × (count (live_id source) db'.api_keys ≡ count (live_id source) db.api_keys)
            ⊎ (action ≡ complete)
              × (t.state ≡ prepared)
              × (count (live_id source) db.api_keys ≡ 1)
              × (count (live_id source) db'.api_keys ≡ 0)
              × (count (live_id replacement) db'.api_keys
                  ≡ count (live_id replacement) db.api_keys))
  unfolding reconcile_rotation_transition
  reconcile_outcome m m' source replacement action db db' ne pool pool' e =
      elim (Result-cases (reconcile_rows fault db source replacement action)) [
        | inr (x, failed) ↦ absurd (ground (arith, pool, failed))
        | inl ((db'', target), written) ↦
            let same : db'' ≡ db' = ground (arith, pool, pool', written) in
            let ran =
              subst
                (λ (x : AuthDb). reconcile_rows fault db source replacement action ≡ ok (x, target))
                same written in
            let (t, found, aimed) =
              reconcile_rows_target db db' source replacement target action ran in
            let (rows, transitions, one) =
              reconcile_rows_ok crypto fault db db' source replacement target action ran in
            (
              t,
              found,
              transitions,
              elim (target_of_cases action t.state source replacement target aimed) [
                | inl (a, st, tg) ↦ inl (
                  a,
                  st,
                  ground (arith, tg, one),
                  rw (rows, tg) (count-mark_self replacement db.api_keys),
                  rw (rows, tg) (count-mark_other replacement source db.api_keys ne),
                )
                | inr (a, st, tg) ↦ inr (
                  a,
                  st,
                  ground (arith, tg, one),
                  rw (rows, tg) (count-mark_self source db.api_keys),
                  rw (rows, tg) (count-mark_other source replacement db.api_keys (λ q. ne (sym q))),
                )
              ],
            )
      ]
