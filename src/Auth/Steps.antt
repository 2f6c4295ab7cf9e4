-- ===== src/Auth/Steps.antt =====
-- The calls that create keys, rotate them or restart the program, and what they write.
use easy_bot.Base.{
  ℕ, ◌<◌, count, ◌≡◌, subst, ◌≢◌, String, Bool, Option, none, some, ◌∷◌, map, ◌⊎◌, arith, not, ◌==◌,
  Bool-cases, Option-cases, All-retain, All-insert, All-remove, length, ltb, insert, inl, inr,
}
use easy_bot.Auth.Types.{
  StoredKey, AuthDb, ApiKeyManager, DbStep, ok, err, Crypto, KeyError, too_many_permissions,
  duplicate_permissions, hashing, is_active, Result-cases, new, update_transition,
  delete_transition,
}
use easy_bot.Auth.Database.{mark_revoked, load_from_db, live_id, key_limit, persist_key}
use easy_bot.Auth.Create.{
  Draw, KeyRequest, raw_key_of, stored_key, store_key, create_key_internal, unique,
}
use easy_bot.Auth.Revoke.{revoke_ephemeral_key, not_session}
use easy_bot.Auth.Rotation.{
  Action, cancel, complete, other, mark_rotation_prepared, clear_rotation_transition,
  without_transition, reconcile_rows, reconcile_rotation_transition,
}
use easy_bot.Auth.Gone.{
  Gone, GoneEntry, GoneRows, IsGone, mark_revoked-Gone, rows-map, forget-IsGone,
}

pub restart-IsGone :
    (id : String) (m : ApiKeyManager) (now : ℕ)
    → IsGone id m
    → IsGone id (load_from_db (new m.pool) now)
unfolding load_from_db new
restart-IsGone id m now g = go m.pool g.in_rows
  where
    go : (pool : Option AuthDb) → GoneRows id pool → IsGone id (load_from_db (new pool) now)
    go none r = record { in_keys = tt; in_loaded = tt; in_rows = tt }
    go (some db) r = record {
      in_keys = tt;
      in_loaded = All-retain (Gone id) _ db.api_keys r;
      in_rows = r;
    }

pub revoke_ephemeral_key-IsGone :
    (id key_id : String) (m : ApiKeyManager)
    → IsGone id m
    → IsGone id (revoke_ephemeral_key m key_id).0
unfolding revoke_ephemeral_key
revoke_ephemeral_key-IsGone id key_id m g = record {
  in_keys = All-retain (GoneEntry id) (not_session key_id) m.keys g.in_keys;
  in_loaded = g.in_loaded;
  in_rows = g.in_rows;
}

module _ (crypto : Crypto) (fault : DbStep → Bool) where
  -- What a successful transaction has written, and what it has counted before.
  pub persist_key_ok :
      (db db' : AuthDb) (row : StoredKey) (source : Option String) (now : ℕ)
      → persist_key fault db row source now ≡ ok db'
      → (db'.api_keys ≡ row ∷ db.api_keys) × (count (is_active now) db.api_keys < key_limit source)
  unfolding persist_key
  persist_key_ok db db' row none now e = ground arith
  persist_key_ok db db' row (some source) now e = ground arith

  store_key-IsGone :
      (id : String) (m : ApiKeyManager) (r : KeyRequest) (d : Draw) (stored : StoredKey) (now : ℕ)
      → Gone id stored
      → IsGone id m
      → IsGone id (store_key crypto fault m r d stored now).0
  unfolding store_key
  store_key-IsGone id m r d stored now gs g = elim (Bool-cases r.persist) [
    | inl durable ↦ elim (Option-cases m.pool) [
      | inl no_pool ↦ rw (durable, no_pool, store_key) indexed
      | inr (db, pool) ↦
          elim (Result-cases (persist_key fault db stored r.rotation_source_id now)) [
            | inl (db', written) ↦
                rw (durable, pool, written, store_key)
                  (record {
                    in_keys = indexed.in_keys;
                    in_loaded = g.in_loaded;
                    in_rows =
                        rw (persist_key_ok db db' stored r.rotation_source_id now written).0
                          (gs, subst (GoneRows id) pool g.in_rows);
                  })
            | inr (e, failed) ↦
                rw (durable, pool, failed, store_key)
                  (record {
                    in_keys = All-remove (GoneEntry id) index _ indexed.in_keys;
                    in_loaded = g.in_loaded;
                    in_rows = g.in_rows;
                  })
          ]
    ]
    | inr session ↦ rw session indexed
  ]
    where
      index : String
      index = crypto.sha256_index (raw_key_of d)

      indexed : IsGone id (record m { keys = insert index stored m.keys })
      indexed = record {
        in_keys = All-insert (GoneEntry id) index stored m.keys gs g.in_keys;
        in_loaded = g.in_loaded;
        in_rows = g.in_rows;
      }

  -- A request is refused with the manager as it was, or the key is stored.
  pub create_cases :
      (m : ApiKeyManager) (r : KeyRequest) (d : Draw) (now : ℕ)
      → ((e : KeyError) × (create_key_internal crypto fault m r d now ≡ (m, err e)))
        ⊎ ((h : String) × (d.phc_hash ≡ some h)
            × (create_key_internal crypto fault m r d now
                ≡ store_key crypto fault m r d (stored_key r d h now) now))
  unfolding create_key_internal
  create_cases m r d now = elim (Bool-cases (ltb 32 (length r.permissions))) [
    | inl many ↦ inl (too_many_permissions, ground (arith, many))
    | inr few ↦ elim (Bool-cases (not (length (unique r.permissions) == length r.permissions))) [
      | inl repeated ↦ inl (duplicate_permissions, ground (arith, few, repeated))
      | inr distinct ↦ elim (Option-cases d.phc_hash) [
        | inl e ↦ inl (hashing, ground (arith, few, distinct, e))
        | inr (h, e) ↦ inr (h, e, ground (arith, few, distinct, e))
      ]
    ]
  ]

  pub create-IsGone :
      (id : String) (m : ApiKeyManager) (r : KeyRequest) (d : Draw) (now : ℕ)
      → d.key_id ≢ id
      → IsGone id m
      → IsGone id (create_key_internal crypto fault m r d now).0
  create-IsGone id m r d now ne g = elim (create_cases m r d now) [
    | inl (e, refused) ↦ rw refused g
    | inr (h, _, stored) ↦
        rw stored (store_key-IsGone id m r d (stored_key r d h now) now (inl ne) g)
  ]

  pub mark_prepared-IsGone :
      (id source replacement : String) (m : ApiKeyManager)
      → IsGone id m
      → IsGone id (mark_rotation_prepared fault m source replacement).0
  unfolding mark_rotation_prepared
  mark_prepared-IsGone id source replacement m g = elim (Option-cases m.pool) [
    | inl no_pool ↦ rw (no_pool, mark_rotation_prepared) g
    | inr (db, pool) ↦ elim (Bool-cases (fault update_transition)) [
      | inl failed ↦ rw (pool, failed, mark_rotation_prepared) g
      | inr written ↦
          rw (pool, written, mark_rotation_prepared)
            (record {
              in_keys = g.in_keys;
              in_loaded = g.in_loaded;
              in_rows = subst (GoneRows id) pool g.in_rows;
            })
    ]
  ]

  pub clear_transition-IsGone :
      (id source replacement : String) (m : ApiKeyManager)
      → IsGone id m
      → IsGone id (clear_rotation_transition fault m source replacement).0
  unfolding clear_rotation_transition
  clear_transition-IsGone id source replacement m g = elim (Option-cases m.pool) [
    | inl no_pool ↦ rw (no_pool, clear_rotation_transition) g
    | inr (db, pool) ↦ elim (Bool-cases (fault delete_transition)) [
      | inl failed ↦ rw (pool, failed, clear_rotation_transition) g
      | inr written ↦
          rw (pool, written, clear_rotation_transition)
            (record {
              in_keys = g.in_keys;
              in_loaded = g.in_loaded;
              in_rows = subst (GoneRows id) pool g.in_rows;
            })
    ]
  ]

  -- What a successful reconciliation has written.
  pub reconcile_rows_ok :
      (db db' : AuthDb) (source replacement target : String) (action : Action)
      → reconcile_rows fault db source replacement action ≡ ok (db', target)
      → (db'.api_keys ≡ map (mark_revoked target) db.api_keys)
        × (db'.transitions ≡ without_transition source replacement db.transitions)
        × (count (live_id target) db.api_keys ≡ 1)
  unfolding reconcile_rows
  reconcile_rows_ok db db' source replacement target cancel e = ground arith
  reconcile_rows_ok db db' source replacement target complete e = ground arith
  reconcile_rows_ok db db' source replacement target other e = ground arith

  pub reconcile-IsGone :
      (id source replacement : String) (action : Action) (m : ApiKeyManager)
      → IsGone id m
      → IsGone id (reconcile_rotation_transition fault m source replacement action).0
  unfolding reconcile_rotation_transition
  reconcile-IsGone id source replacement action m g = elim (Option-cases m.pool) [
    | inl no_pool ↦ rw (no_pool, reconcile_rotation_transition) g
    | inr (db, pool) ↦ elim (Result-cases (reconcile_rows fault db source replacement action)) [
      | inl ((db', target), written) ↦
          rw (pool, written, reconcile_rotation_transition)
            (forget-IsGone id target _ (record {
              in_keys = g.in_keys;
              in_loaded = g.in_loaded;
              in_rows = rw (reconcile_rows_ok db db' source replacement target action written).0 (
                  rows-map id (mark_revoked target) db.api_keys (mark_revoked-Gone id target)
                    (subst (GoneRows id) pool g.in_rows));
            }))
      | inr (e, failed) ↦ rw (pool, failed, reconcile_rotation_transition) g
    ]
  ]
