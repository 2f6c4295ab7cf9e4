-- ===== src/Session/Race.antt =====
-- crates/easybot-core/src/session/manager.rs: a deletion with another call between its halves.
use easy_bot.Base.{
  ℕ, ◌≡◌, refl, ap, ◌∙◌, String, true, none, some, List, lookup, insert, remove, lookup-insert,
  lookup-remove, eq_iff, arith,
}
use easy_bot.Session.Types.{Session, SessionSource}
use easy_bot.Session.Manager.{
  SessionManager, upsert_session, delete_session, fresh_session, get_or_create, delete_memory,
  delete_stored,
}

removed-lookup :
    {T : Type 0} (key : String) (e : List (String × T)) → lookup key (remove key e) ≡ none
removed-lookup key e = lookup-remove key key e ∙ ground (arith, eq_iff key key)

module _ {M : Type 0} where
  reopened :
      (empty : M) (m : SessionManager M) (key : String) (source : SessionSource) (now : ℕ)
      → (get_or_create empty true (delete_memory m key) key source now).0 ≡ record {
        sessions = insert key (fresh_session empty key source now) (remove key m.sessions);
        store = upsert_session true (fresh_session empty key source now) m.store;
      }
  unfolding get_or_create
  reopened empty m key source now = rw (removed-lookup key m.sessions, get_or_create) refl

  -- If, in a manager with a store, a session is opened again between the two halves of its deletion,
  -- and all writes to the store succeed, the memory has the new session under the key and the store
  -- has none.
  pub reopened_delete-lost :
      (empty : M) (m : SessionManager M) (key : String) (source : SessionSource) (now : ℕ)
      (rows : List (String × Session M))
      → m.store ≡ some rows
      → (lookup key
            (delete_stored true
              (get_or_create empty true (delete_memory m key) key source now).0
              key).sessions
          ≡ some (fresh_session empty key source now))
        × ((after : List (String × Session M)) × ((delete_stored true
                (get_or_create empty true (delete_memory m key) key source now).0
                key).store
              ≡ some after)
            × (lookup key after ≡ none))
  reopened_delete-lost empty m key source now rows h =
      let new = fresh_session empty key source now in
      rw (reopened empty m key source now) (
        lookup-insert key key new (remove key m.sessions) ∙ ground (arith, eq_iff key key),
        (
          remove key (insert key new rows),
          ap (λ r. delete_session true key (upsert_session true new r)) h,
          removed-lookup key (insert key new rows),
        ),
      )
