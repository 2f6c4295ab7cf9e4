-- ===== src/Session/Manager.antt =====
-- crates/easybot-core/src/session/manager.rs: the sessions in memory, and the calls that change them.
-- The store is the map of what it holds; `stored` says whether a write to it succeeds, since a
-- failure is only logged. `size` is the length of a metadata value written as JSON.
use easy_bot.Base.{
  ℕ, String, Bool, true, false, not, ◌&&◌, Option, none, some, List, [], ◌∷◌, ◌++◌, if◌then◌else◌,
  ltb, leb, length, take, drop, retain, count, lookup, insert, remove,
}
use easy_bot.Session.Types.{Session, SessionSource, SessionMutation, never}

pub record SessionManager (M : Type 0) : Type 0 where
  pub sessions : List (String × Session M)
  pub store : Option (List (String × Session M))

abbrev pub max_session_metadata_size : ℕ
max_session_metadata_size = 4096

-- The text cut at byte 97, where the language panics within a character.
abbrev pub is_continuation : List ℕ → Bool
is_continuation [] = false
is_continuation (b ∷ bs) = leb 128 b && ltb b 192

unfoldable pub summary : List ℕ → Option (List ℕ)
summary t =
    if ltb 100 (length t)
    then (if is_continuation (drop 97 t) then none else some (take 97 t ++ b'.' ∷ b'.' ∷ b'.' ∷ []))
    else some t

abbrev pub summarised : Option (List ℕ) → Option (Option (List ℕ))
summarised none = some none
summarised (some t) = elim (summary t) [ none ↦ none | some cut ↦ some (some cut) ]

abbrev pub or_kept {ℓ} : {T : Type ℓ} → Option T → T → T
or_kept none t = t
or_kept (some new) t = new

abbrev pub is_none : Option String → Bool
is_none none = true
is_none (some t) = false

abbrev pub is_enriched : SessionSource → Bool
is_enriched s =
    not
      (is_none s.user_username && is_none s.user_role && is_none s.user_name && is_none s.chat_name)

abbrev pub or_old : Option String → Option String → Option String
or_old none old = old
or_old (some t) old = some t

module _ {M : Type 0} where
  abbrev pub upsert_session :
      Bool → Session M → Option (List (String × Session M)) → Option (List (String × Session M))
  upsert_session stored s none = none
  upsert_session stored s (some rows) = if stored then some (insert s.key s rows) else some rows

  abbrev pub delete_session :
      Bool → String → Option (List (String × Session M)) → Option (List (String × Session M))
  delete_session stored key none = none
  delete_session stored key (some rows) = if stored then some (remove key rows) else some rows

  -- A session changed under its key, and written to the store.
  abbrev pub keep : Bool → SessionManager M → String → Session M → SessionManager M
  keep stored m key s = record {
    sessions = insert key s m.sessions;
    store = upsert_session stored s m.store;
  }

  abbrev pub fresh_session : M → String → SessionSource → ℕ → Session M
  fresh_session empty key source now = record {
    key = key;
    platform = source.platform;
    chat_id = source.chat_id;
    thread_id = none;
    created_at = now;
    updated_at = now;
    source = source;
    reset_policy = never;
    metadata = empty;
    last_message = none;
    last_message_at = none;
    custom_name = none;
  }

  -- One step of a sequence of calls: the map is free again before the write to the store, and what
  -- other calls do in between is not in this definition.
  unfoldable pub get_or_create :
      M → Bool → SessionManager M → String → SessionSource → ℕ → SessionManager M × Session M
  get_or_create empty stored m key source now = elim (lookup key m.sessions) [
    | some s ↦ (keep stored m key (record s { updated_at = now }), record s { updated_at = now })
    | none ↦
        (keep stored m key (fresh_session empty key source now), fresh_session empty key source now)
  ]

  -- The two halves of a deletion, between which other calls may run.
  abbrev pub delete_memory : SessionManager M → String → SessionManager M
  delete_memory m key = record m { sessions = remove key m.sessions }

  abbrev pub delete_stored : Bool → SessionManager M → String → SessionManager M
  delete_stored stored m key = record m { store = delete_session stored key m.store }

  -- A deletion without another call between its halves.
  unfoldable pub delete : Bool → SessionManager M → String → SessionManager M × Bool
  delete stored m key = elim (lookup key m.sessions) [
    | some s ↦ (delete_stored stored (delete_memory m key) key, true)
    | none ↦ (m, false)
  ]

  unfoldable pub prune_expired : SessionManager M → ℕ → SessionManager M × ℕ
  prune_expired m before = (
    record m {
      sessions = retain (λ (e : String × Session M). not (ltb e.1.updated_at before)) m.sessions;
    },
    count (λ (e : String × Session M). ltb e.1.updated_at before) m.sessions,
  )

  abbrev pub insert_all :
      List (String × Session M) → List (String × Session M) → List (String × Session M)
  insert_all [] sessions = sessions
  insert_all (row ∷ rows) sessions = insert_all rows (insert row.1.key row.1 sessions)

  -- `none` is an error of the store.
  unfoldable pub load_from_store : Bool → SessionManager M → Option (SessionManager M × ℕ)
  load_from_store readable m = elim m.store [
    | none ↦ some (m, 0)
    | some rows ↦
        if readable
        then some (record m { sessions = insert_all rows m.sessions }, length rows)
        else none
  ]

  unfoldable pub update_source_fields :
      Bool → SessionManager M → String → SessionSource → ℕ → SessionManager M × Option (Session M)
  update_source_fields stored m key enriched now = elim (lookup key m.sessions) [
    | none ↦ (m, none)
    | some s ↦
        let s1 : Session M = record s {
          updated_at = now;
          source = record s.source {
            user_username = or_old enriched.user_username s.source.user_username;
            user_role = or_old enriched.user_role s.source.user_role;
            user_name = or_old enriched.user_name s.source.user_name;
            chat_name = or_old enriched.chat_name s.source.chat_name;
          };
        } in
        if is_enriched enriched
        then (keep stored m key s1, some s1)
        else (record m { sessions = insert key s1 m.sessions }, some s1)
  ]

  -- `none` is a panic.
  unfoldable pub update_last_message :
      Bool
      → SessionManager M
      → String
      → Option (List ℕ)
      → ℕ
      → Option (SessionManager M × Option (Session M))
  unfolding summary
  update_last_message stored m key text timestamp = elim (lookup key m.sessions) [
    | none ↦ some (m, none)
    | some s ↦ elim (summarised text) [
      | none ↦ none
      | some cut ↦
          let s1 : Session M = record s { last_message = cut; last_message_at = some timestamp } in
          some (keep stored m key s1, some s1)
    ]
  ]

  abbrev pub too_large : (M → ℕ) → Option M → Bool
  too_large size none = false
  too_large size (some meta) = ltb max_session_metadata_size (size meta)

  unfoldable pub update :
      (M → ℕ)
      → Bool
      → SessionManager M
      → String
      → SessionMutation M
      → ℕ
      → SessionManager M × Option (Session M)
  update size stored m key mutation now = elim (lookup key m.sessions) [
    | none ↦ (m, none)
    | some s ↦
        let s1 : Session M = record s {
          updated_at = now;
          reset_policy = or_kept mutation.reset_policy s.reset_policy;
        } in
        if too_large size mutation.metadata
        then (record m { sessions = insert key s1 m.sessions }, none)
        else (let s2 : Session M = record s1 {
          metadata = or_kept mutation.metadata s.metadata;
          custom_name = or_kept mutation.custom_name s.custom_name;
        } in
            (keep stored m key s2, some s2))
  ]
