-- ===== src/Auth/Revocation.antt =====
-- Revocation of API keys: it is durable, it is final, and it is never claimed when it did not happen.
use easy_bot.Base.{
  ℕ, ◌≡◌, refl, inl, inr, String, Bool, true, none, some, map, arith, Bool-cases, Option-cases,
  eq_iff, All, All-map, All-intro, All-mono, All-retain, retain-holds, subst, find, not, ◌||◌,
  count, ◌==◌, any,
}
use easy_bot.Auth.Types.{StoredKey, AuthDb, ApiKeyManager, DbStep, Result, ok, err, update_keys}
use easy_bot.Auth.Database.{has_id, live_id, dead_id, mark_revoked}
use easy_bot.Auth.Revoke.{
  forget, update_revoked, delete_revoked, after_write, revoke_in_memory, revoke_key, revoked_of,
  revoked_of_entry, delete_in_memory, delete_key, mark_entry, entry_has_id,
}
use easy_bot.Auth.Gone.{
  Gone, GoneEntry, GoneRows, IsGone, mark_revoked-Gone, mark_revoked-Gone_self, rows-map,
  keys-mark_entry, forget-IsGone,
}

forget-IsGone_self :
    (id : String) (m : ApiKeyManager) → GoneRows id m.pool → IsGone id (forget m id)
unfolding forget
forget-IsGone_self id m g = record {
  in_keys =
      All-mono _ _ _
        (λ (e : String × StoredKey) h. inl (λ same. cc ((eq_iff e.1.info.id id).1 same, h)))
        (retain-holds (λ e. not (entry_has_id id e)) m.keys);
  in_loaded =
      All-mono _ _ _ (λ (s : StoredKey) h. inl (λ same. cc ((eq_iff s.info.id id).1 same, h)))
        (retain-holds (λ s. not (has_id id s)) m.loaded);
  in_rows = g;
}

module _ (fault : DbStep → Bool) where
  revoke_rows-IsGone :
      (id : String) (m m' : ApiKeyManager) (db : AuthDb)
      → after_write fault m id (update_revoked fault db id) ≡ (m', ok true)
      → IsGone id m'
  unfolding update_revoked after_write
  revoke_rows-IsGone id m m' db e = elim (Bool-cases (fault update_keys)) [
    | inl failed ↦ absurd (ground (arith, failed))
    | inr written ↦ elim (Bool-cases (count (live_id id) db.api_keys == 1)) [
      | inl one ↦ subst (IsGone id) (ground (arith, written, one)) (
          forget-IsGone_self id
            (record m { pool = some (record db { api_keys = map (mark_revoked id) db.api_keys }) })
            (All-map (Gone id) (mark_revoked id) db.api_keys
              (All-intro _ (mark_revoked-Gone_self id) db.api_keys)))
      | inr not_one ↦ absurd (ground (arith, written, not_one))
    ]
  ]

  revoke_memory-IsGone :
      (id : String) (m m' : ApiKeyManager)
      → m.pool ≡ none
      → revoke_in_memory fault m id ≡ (m', ok true)
      → IsGone id m'
  unfolding revoke_in_memory
  revoke_memory-IsGone id m m' no_pool e =
      elim (Bool-cases (any (entry_has_id id) m.keys || any (has_id id) m.loaded)) [
        | inl found ↦
            let marked : ApiKeyManager = record m {
              keys = map (mark_entry id) m.keys;
              loaded = map (mark_revoked id) m.loaded;
            } in
            subst (IsGone id) {x = marked} (ground (arith, found)) (record {
              in_keys =
                  All-map (GoneEntry id) (mark_entry id) m.keys (
                    All-intro _ (λ (x : String × StoredKey). mark_revoked-Gone_self id x.1) m.keys);
              in_loaded =
                  All-map (Gone id) (mark_revoked id) m.loaded
                    (All-intro _ (mark_revoked-Gone_self id) m.loaded);
              in_rows = rw no_pool tt;
            })
        | inr absent ↦ absurd (ground (arith, absent))
      ]

  -- A revocation that reports success leaves no live key of the id, in memory or in the database.
  pub revoke_key-IsGone :
      (id : String) (m m' : ApiKeyManager) → revoke_key fault m id ≡ (m', ok true) → IsGone id m'
  unfolding revoke_key
  revoke_key-IsGone id m m' e = elim (Option-cases m.pool) [
    | inl no_pool ↦ revoke_memory-IsGone id m m' no_pool (rw (no_pool, revoke_key) at e)
    | inr (db, pool) ↦ revoke_rows-IsGone id m m' db (rw (pool, revoke_key) at e)
  ]

  after_write-IsGone :
      (id key_id : String) (m : ApiKeyManager) (r : Result (AuthDb × ℕ))
      → IsGone id m
      → ((db : AuthDb) (n : ℕ) → r ≡ ok (db, n) → All (Gone id) db.api_keys)
      → IsGone id (after_write fault m key_id r).0
  unfolding after_write
  after_write-IsGone id key_id m (err e) g rows = g
  after_write-IsGone id key_id m (ok (db', changed)) g rows =
      let written : IsGone id (record m { pool = some db' }) = record {
        in_keys = g.in_keys;
        in_loaded = g.in_loaded;
        in_rows = rows db' changed refl;
      } in
      elim (Bool-cases (changed == 1)) [
        | inl one ↦ rw one (forget-IsGone id key_id (record m { pool = some db' }) written)
        | inr other ↦ rw other written
      ]

  update_revoked-rows :
      (id key_id : String) (db db' : AuthDb) (n : ℕ)
      → All (Gone id) db.api_keys
      → update_revoked fault db key_id ≡ ok (db', n)
      → All (Gone id) db'.api_keys
  unfolding update_revoked
  update_revoked-rows id key_id db db' n g e =
      subst (All (Gone id)) (ground arith)
        (rows-map id (mark_revoked key_id) db.api_keys (mark_revoked-Gone id key_id) g)

  delete_revoked-rows :
      (id key_id : String) (db db' : AuthDb) (n : ℕ)
      → All (Gone id) db.api_keys
      → delete_revoked fault db key_id ≡ ok (db', n)
      → All (Gone id) db'.api_keys
  unfolding delete_revoked
  delete_revoked-rows id key_id db db' n g e =
      subst (All (Gone id)) (ground arith)
        (All-retain (Gone id) (λ s. not (dead_id key_id s)) db.api_keys g)

  revoke_in_memory-keeps :
      (id key_id : String) (m : ApiKeyManager)
      → IsGone id m
      → IsGone id (revoke_in_memory fault m key_id).0
  unfolding revoke_in_memory
  revoke_in_memory-keeps id key_id m g =
      elim (Bool-cases (any (entry_has_id key_id) m.keys || any (has_id key_id) m.loaded)) [
        | inl found ↦ rw found (record {
          in_keys = keys-mark_entry id key_id m.keys g.in_keys;
          in_loaded =
              rows-map id (mark_revoked key_id) m.loaded (mark_revoked-Gone id key_id) g.in_loaded;
          in_rows = g.in_rows;
        })
        | inr absent ↦ rw absent g
      ]

  delete_in_memory-keeps :
      (id key_id : String) (m : ApiKeyManager)
      → IsGone id m
      → IsGone id (delete_in_memory fault m key_id).0
  unfolding delete_in_memory
  delete_in_memory-keeps id key_id m g =
      elim (Bool-cases (
        revoked_of_entry (find (entry_has_id key_id) m.keys)
        || revoked_of (find (has_id key_id) m.loaded))) [
          | inl found ↦ rw found (forget-IsGone id key_id m g)
          | inr absent ↦ rw absent g
        ]

  pub revoke_key-keeps :
      (id key_id : String) (m : ApiKeyManager)
      → IsGone id m
      → IsGone id (revoke_key fault m key_id).0
  unfolding revoke_key
  revoke_key-keeps id key_id m g = elim (Option-cases m.pool) [
    | inl no_pool ↦ rw (no_pool, revoke_key) (revoke_in_memory-keeps id key_id m g)
    | inr (db, pool) ↦
        rw (pool, revoke_key)
          (after_write-IsGone id key_id m (update_revoked fault db key_id) g (λ db' n e.
            update_revoked-rows id key_id db db' n (subst (GoneRows id) pool g.in_rows) e))
  ]

  pub delete_key-keeps :
      (id key_id : String) (m : ApiKeyManager)
      → IsGone id m
      → IsGone id (delete_key fault m key_id).0
  unfolding delete_key
  delete_key-keeps id key_id m g = elim (Option-cases m.pool) [
    | inl no_pool ↦ rw (no_pool, delete_key) (delete_in_memory-keeps id key_id m g)
    | inr (db, pool) ↦
        rw (pool, delete_key)
          (after_write-IsGone id key_id m (delete_revoked fault db key_id) g (λ db' n e.
            delete_revoked-rows id key_id db db' n (subst (GoneRows id) pool g.in_rows) e))
  ]
