-- ===== src/Auth/Gone.antt =====
-- A key that is gone: wherever its id still stands, in memory or in the database, it is revoked.
-- Every operation keeps it so, unless it creates a key of that id.
use easy_bot.Base.{
  ℕ, ◌≡◌, refl, subst, ◌≢◌, ◌⊎◌, inl, inr, String, Bool, true, false, Option, none, some, List, [],
  ◌∷◌, map, arith, Bool-cases, Option-cases, str_eq, eq_iff, All, All-map, All-mono, All-retain,
  All-find, All-insert, find, lookup, All-lookup, not, ◌&&◌, ◌||◌,
}
use easy_bot.Auth.Types.{
  StoredKey, AuthDb, AuthInfo, ApiKeyManager, DbStep, Result, ok, err, Crypto, is_expired,
  api_key_prefix,
}
use easy_bot.Auth.Database.{has_id, mark_revoked}
use easy_bot.Auth.Authenticate.{
  touch, touch_entry, touch_pool, record_successful_use, verify_and_build_auth, promote_current,
  promote_verified_loaded_key, with_prefix, record_use_of, try_loaded, authenticate,
}
use easy_bot.Auth.Revoke.{forget, mark_entry}

abbrev pub Gone : String → StoredKey → Type 0
Gone id s = (s.info.id ≢ id) ⊎ (s.info.revoked ≡ true)

abbrev pub GoneEntry : String → String × StoredKey → Type 0
GoneEntry id (index, s) = Gone id s

abbrev pub GoneRows : String → Option AuthDb → Type 0
GoneRows id none = Unit
GoneRows id (some db) = All (Gone id) db.api_keys

pub record IsGone (id : String) (m : ApiKeyManager) : Type 0 where
  pub in_keys : All (GoneEntry id) m.keys
  pub in_loaded : All (Gone id) m.loaded
  pub in_rows : GoneRows id m.pool

pub touch-Gone :
    (id key_id : String) (now : ℕ) (s : StoredKey) → Gone id s → Gone id (touch key_id now s)
touch-Gone id key_id now s g = ground arith

pub mark_revoked-Gone :
    (id key_id : String) (s : StoredKey) → Gone id s → Gone id (mark_revoked key_id s)
mark_revoked-Gone id key_id s g = ground arith

pub mark_revoked-Gone_self : (id : String) (s : StoredKey) → Gone id (mark_revoked id s)
mark_revoked-Gone_self id s = elim (Bool-cases (str_eq s.info.id id)) [
  | inl same ↦ inr (rw same)
  | inr other ↦ inl (λ e. cc ((eq_iff s.info.id id).1 (ground (arith, other, e)), other))
]

All-map_mono {ℓ κ} :
    {A : Type ℓ} (P : A → Type κ) (f : A → A) (xs : List A)
    → ((x : A) → P x → P (f x))
    → All P xs
    → All P (map f xs)
All-map_mono P f xs h a = All-map P f xs (All-mono P (λ x. P (f x)) xs h a)

pub rows-map :
    (id : String) (f : StoredKey → StoredKey) (rows : List StoredKey)
    → ((s : StoredKey) → Gone id s → Gone id (f s))
    → All (Gone id) rows
    → All (Gone id) (map f rows)
rows-map id f rows = All-map_mono (Gone id) f rows

pub keys-mark_entry :
    (id key_id : String) (keys : List (String × StoredKey))
    → All (GoneEntry id) keys
    → All (GoneEntry id) (map (mark_entry key_id) keys)
keys-mark_entry id key_id keys =
    All-map_mono (GoneEntry id) (mark_entry key_id) keys
      (λ (e : String × StoredKey). mark_revoked-Gone id key_id e.1)

pub forget-IsGone :
    (id key_id : String) (m : ApiKeyManager) → IsGone id m → IsGone id (forget m key_id)
unfolding forget
forget-IsGone id key_id m g = record {
  in_keys = All-retain (GoneEntry id) _ m.keys g.in_keys;
  in_loaded = All-retain (Gone id) _ m.loaded g.in_loaded;
  in_rows = g.in_rows;
}

touch_pool-GoneRows :
    (id key_id : String) (written : Bool) (now : ℕ) (pool : Option AuthDb)
    → GoneRows id pool
    → GoneRows id (touch_pool written key_id now pool)
touch_pool-GoneRows id key_id true now none g = tt
touch_pool-GoneRows id key_id true now (some db) g =
    rows-map id (touch key_id now) db.api_keys (touch-Gone id key_id now) g
touch_pool-GoneRows id key_id false now pool g = g

-- What a step of an authentication leaves: the manager still without the key, and no success for it.
abbrev pub Denies : String → ApiKeyManager × Result AuthInfo → Type 0
Denies id (m, err e) = IsGone id m
Denies id (m, ok auth) = IsGone id m × (auth.id ≢ id)

pub Denies-IsGone :
    (id : String) (r : ApiKeyManager × Result AuthInfo) → Denies id r → IsGone id r.0
Denies-IsGone id (m, ok auth) (g, _) = g
Denies-IsGone id (m, err e) g = g

pub Denies-ne :
    (id : String) (r : ApiKeyManager × Result AuthInfo) (auth : AuthInfo)
    → Denies id r
    → r.1 ≡ ok auth
    → auth.id ≢ id
Denies-ne id (m, ok a) auth (_, ne) e =
    subst (λ (x : AuthInfo). x.id ≢ id) {x = a} {y = auth} (cc) ne
Denies-ne id (m, err e') auth g e = absurd (cc e)

Denies-intro :
    (id : String) (m : ApiKeyManager) (r : Result AuthInfo)
    → IsGone id m
    → ((auth : AuthInfo) → r ≡ ok auth → auth.id ≢ id)
    → Denies id (m, r)
Denies-intro id m (ok auth) g h = (g, h auth refl)
Denies-intro id m (err e) g h = g

module _ (crypto : Crypto) (fault : DbStep → Bool) where
  pub record_successful_use-IsGone :
      (id key_id : String) (m : ApiKeyManager) (now : ℕ)
      → IsGone id m
      → IsGone id (record_successful_use crypto fault m key_id now)
  unfolding record_successful_use
  record_successful_use-IsGone id key_id m now g = record {
    in_keys =
        All-map_mono (GoneEntry id) (touch_entry key_id now) m.keys
          (λ (e : String × StoredKey). touch-Gone id key_id now e.1) g.in_keys;
    in_loaded = rows-map id (touch key_id now) m.loaded (touch-Gone id key_id now) g.in_loaded;
    in_rows = touch_pool-GoneRows id key_id _ now m.pool g.in_rows;
  }

  verify_and_build_auth-ne :
      (id : String) (stored : StoredKey) (key : List ℕ) (now : ℕ) (auth : AuthInfo)
      → Gone id stored
      → verify_and_build_auth crypto fault stored key now ≡ ok auth
      → auth.id ≢ id
  unfolding verify_and_build_auth
  verify_and_build_auth-ne id stored key now auth g e = ground arith

  promote_current-Denies :
      (id index : String) (m : ApiKeyManager) (current : StoredKey) (now : ℕ)
      → IsGone id m
      → Gone id current
      → Denies id (promote_current crypto fault m index current now)
  unfolding promote_current
  promote_current-Denies id index m current now g gc =
      elim (Bool-cases (current.info.revoked || is_expired current.info.expires_at now)) [
        | inl refused ↦ rw refused g
        | inr live ↦ rw live (
          record {
            in_keys = All-insert (GoneEntry id) index current m.keys gc g.in_keys;
            in_loaded = g.in_loaded;
            in_rows = g.in_rows;
          },
          ground (arith, live, gc),
        )
      ]

  promote-Denies :
      (id key_id index : String) (m : ApiKeyManager) (now : ℕ)
      → IsGone id m
      → Denies id (promote_verified_loaded_key crypto fault m index key_id now)
  unfolding promote_verified_loaded_key
  promote-Denies id key_id index m now g = elim (Option-cases (find (has_id key_id) m.loaded)) [
    | inl e ↦ rw (e, promote_verified_loaded_key) g
    | inr (current, e) ↦
        rw (e, promote_verified_loaded_key)
          (promote_current-Denies id index m current now g
            (All-find (Gone id) _ m.loaded current g.in_loaded e))
  ]

  record_use_of-Denies :
      (id : String) (r : ApiKeyManager × Result AuthInfo) (now : ℕ)
      → Denies id r
      → Denies id (record_use_of crypto fault r now)
  record_use_of-Denies id (m, ok auth) now (g, ne) =
      (record_successful_use-IsGone id auth.id m now g, ne)
  record_use_of-Denies id (m, err e) now g = g

  try_loaded-Denies :
      (id : String) (m : ApiKeyManager) (candidates : List StoredKey) (key : List ℕ) (now : ℕ)
      → IsGone id m
      → Denies id (try_loaded crypto fault m candidates key now)
  unfolding try_loaded
  try_loaded-Denies id m [] key now g = g
  try_loaded-Denies id m (stored ∷ candidates) key now g =
      elim (Bool-cases (
        not stored.info.revoked
        && not (is_expired stored.info.expires_at now)
        && crypto.verify_password stored.hash key)) [
          | inl tried ↦
              rw tried (record_use_of-Denies id _ now (promote-Denies id stored.info.id _ m now g))
          | inr skipped ↦ rw skipped (try_loaded-Denies id m candidates key now g)
        ]

  -- A manager without a key denies it, whatever raw key is presented, and stays without it.
  pub authenticate-Denies :
      (id : String) (m : ApiKeyManager) (key : List ℕ) (now : ℕ)
      → IsGone id m
      → Denies id (authenticate crypto fault m key now)
  unfolding authenticate
  authenticate-Denies id m key now g = elim (Option-cases (api_key_prefix key)) [
    | inl e ↦ rw (e, authenticate) g
    | inr (prefix, e) ↦ elim (Option-cases (lookup (crypto.sha256_index key) m.keys)) [
      | inl unindexed ↦
          rw (e, unindexed, authenticate)
            (try_loaded-Denies id m (with_prefix prefix m.loaded) key now g)
      | inr (stored, indexed) ↦
          rw (e, indexed, authenticate)
            (record_use_of-Denies id (m, verify_and_build_auth crypto fault stored key now) now
              (Denies-intro id m (verify_and_build_auth crypto fault stored key now) g (λ auth.
                verify_and_build_auth-ne id stored key now auth
                  (All-lookup (GoneEntry id) _ m.keys stored g.in_keys indexed))))
    ]
  ]
