-- ===== src/Auth/Ephemeral/Newest.antt =====
-- crates/easybot-core/src/auth/api_key/keys.rs: the key that was just created, and the
-- eviction behind it.
use easy_bot.Base.{
  ℕ, suc, zero, ◌≤◌, ◌≡◌, refl, sym, ap, ◌∙◌, inl, inr, String, Bool, true, false, ◌&&◌, none, some,
  List, [], ◌∷◌, map, str_eq, eq_iff, retain, count, count-retain, drop, remove, insert, lookup,
  lookup-remove, lookup-insert, contains_key, All, All-map, All-intro, arith, Bool-cases,
}
use easy_bot.Auth.Types.{ApiKeyManager, StoredKey, DbStep, ok, Crypto}
use easy_bot.Auth.Create.{Draw, KeyRequest, raw_key_of, stored_key, store_key}
use easy_bot.Auth.Steps.{create_cases}
use easy_bot.Auth.Ephemeral.{
  of_name, Candidate, candidate, comes_first, place, sorted, remove_all, evict, unexpired,
  create_ephemeral_key, max_active_per_ephemeral_name,
}
use easy_bot.Auth.Ephemeral.Bound.{count-map, evict-count}

module _ (P : Candidate → Type 0) where
  All-place : (c : Candidate) (cs : List Candidate) → P c → All P cs → All P (place c cs)
  unfolding place
  All-place c [] h k = (h, tt)
  All-place c (d ∷ ds) h (here, k) = elim (Bool-cases (comes_first c d)) [
    | inl e ↦ rw e (h, (here, k))
    | inr e ↦ rw e (here, All-place c ds h k)
  ]

  All-sorted : (cs : List Candidate) → All P cs → All P (sorted cs)
  unfolding sorted
  All-sorted [] h = tt
  All-sorted (c ∷ cs) (here, h) = All-place c (sorted cs) here (All-sorted cs h)

  All-drop : (n : ℕ) (cs : List Candidate) → All P cs → All P (drop n cs)
  All-drop zero cs h = h
  All-drop (suc n) [] h = tt
  All-drop (suc n) (c ∷ cs) (here, h) = All-drop n cs h

  All-drop_more : (n : ℕ) (cs : List Candidate) → All P (drop 1 cs) → All P (drop (suc n) cs)
  All-drop_more n [] h = tt
  All-drop_more n (c ∷ cs) h = All-drop n cs h

abbrev Plain : Candidate → Type 0
Plain c = c.is_created ≡ false

count-Plain : (cs : List Candidate) → count (λ c. c.is_created) cs ≡ 0 → All Plain cs
count-Plain [] h = tt
count-Plain (c ∷ cs) h = elim (Bool-cases c.is_created) [
  | inl e ↦ absurd (ground (arith, e, h))
  | inr e ↦ (e, count-Plain cs (ground (arith, e, h)))
]

place-drop :
    (c : Candidate) (cs : List Candidate)
    → Plain c
    → All Plain (drop 1 cs)
    → All Plain (drop 1 (place c cs))
unfolding place
place-drop c [] h k = tt
place-drop c (d ∷ ds) h k = elim (Bool-cases (comes_first c d)) [
  | inl e ↦ let plain : d.is_created ≡ false = ground (arith, e, h) in rw e (plain, k)
  | inr e ↦ rw e (All-place Plain c ds h k)
]

place-created :
    (c : Candidate) (cs : List Candidate)
    → c.is_created ≡ true
    → All Plain cs
    → All Plain (drop 1 (place c cs))
unfolding place
place-created c [] h k = tt
place-created c (d ∷ ds) h (plain, k) =
    let first : comes_first c d ≡ true = ground (arith, plain, h) in rw first (plain, k)

-- Where one candidate at most was just created, all behind the first are others.
sorted-drop :
    (cs : List Candidate) → count (λ c. c.is_created) cs ≤ 1 → All Plain (drop 1 (sorted cs))
unfolding sorted place
sorted-drop [] h = tt
sorted-drop (c ∷ cs) h = elim (Bool-cases c.is_created) [
  | inl e ↦
      let others : All Plain (sorted cs) =
        All-sorted Plain cs (count-Plain cs (ground (arith, e, h))) in
      place-created c (sorted cs) e others
  | inr e ↦ place-drop c (sorted cs) e (sorted-drop cs (ground (arith, e, h)))
]

count-insert :
    (index : String) (stored : StoredKey) (keys : List (String × StoredKey))
    → contains_key index keys ≡ false
    → count (λ e. str_eq e.0 index) (insert index stored keys) ≡ 1
unfolding insert contains_key
count-insert index stored [] h = rw ((eq_iff index index).1 refl) refl
count-insert index stored ((j, s) ∷ keys) h = ground (arith, count-insert index stored keys, h)

count-both :
    (p q : String × StoredKey → Bool) (keys : List (String × StoredKey))
    → count (λ e. p e && q e) keys ≤ count p keys
count-both p q [] = omega arith
count-both p q (e ∷ keys) = ground (arith, count-both p q keys)

lookup-remove_all :
    (index : String) (cs : List Candidate) (keys : List (String × StoredKey))
    → All (λ c. str_eq c.index index ≡ false) cs
    → lookup index (remove_all cs keys) ≡ lookup index keys
lookup-remove_all index [] keys h = refl
lookup-remove_all index (c ∷ cs) keys (other, h) =
    lookup-remove_all index cs (remove c.index keys) h
    ∙ lookup-remove c.index index keys
    ∙ rw other refl

abbrev Tied : String → Candidate → Type 0
Tied index c = c.is_created ≡ str_eq c.index index

All-both :
    (index : String) (cs : List Candidate)
    → All (Tied index) cs
    → All Plain cs
    → All (λ c. str_eq c.index index ≡ false) cs
All-both index [] h k = tt
All-both index (c ∷ cs) (tied, h) (plain, k) = (sym tied ∙ plain, All-both index cs h k)

-- The eviction keeps the key at an index that is there once at most.
evict-lookup :
    (name index : String) (keys : List (String × StoredKey))
    → count (λ e. str_eq e.0 index) keys ≤ 1
    → lookup index (evict name index keys) ≡ lookup index keys
unfolding evict
evict-lookup name index keys h =
    let same = retain (of_name name) keys in
    let cs = map (candidate index) same in
    let once : count (λ c. c.is_created) cs ≤ 1 = omega (
      arith,
      h,
      count-map (λ c. c.is_created) (candidate index) same,
      count-retain (λ e. str_eq e.0 index) (of_name name) keys,
      count-both (λ e. str_eq e.0 index) (of_name name) keys,
    ) in
    let tied : All (Tied index) (drop max_active_per_ephemeral_name (sorted cs)) =
      All-drop (Tied index) max_active_per_ephemeral_name (sorted cs) (
        All-sorted (Tied index) cs (
          All-map (Tied index) (candidate index) same
            (All-intro (λ e. Tied index (candidate index e)) (λ e. refl) same))) in
    lookup-remove_all index (drop max_active_per_ephemeral_name (sorted cs)) keys (
      All-both index (drop max_active_per_ephemeral_name (sorted cs)) tied
        (All-drop_more Plain 7 (sorted cs) (sorted-drop cs once)))

abbrev request : String → List String → ℕ → KeyRequest
request name permissions expires_at = record {
  name = name;
  permissions = permissions;
  expires_at = some expires_at;
  requests_per_minute = none;
  persist = false;
  subject_id = none;
  rotation_source_id = none;
}

created-keys :
    (crypto : Crypto) (fault : DbStep → Bool) (m m' : ApiKeyManager) (name : String)
    (permissions : List String) (expires_at now : ℕ) (d : Draw) (result : String × List ℕ)
    → create_ephemeral_key crypto fault m name permissions expires_at d now ≡ (m', ok result)
    → (h : String) × (m'.keys
        ≡ evict name (crypto.sha256_index (raw_key_of d)) (
            insert
              (crypto.sha256_index (raw_key_of d))
              (stored_key (request name permissions expires_at) d h now)
              (retain (unexpired now) m.keys)))
unfolding create_ephemeral_key store_key
created-keys crypto fault m m' name permissions expires_at now d result e =
    let cleaned : ApiKeyManager = record m { keys = retain (unexpired now) m.keys } in
    elim (create_cases crypto fault cleaned (request name permissions expires_at) d now) [
      | inl (x, refused) ↦ absurd (cc (rw (refused, create_ephemeral_key) at e))
      | inr (h, _, stored) ↦
          (h, sym (ap (λ p. p.0.keys) (rw (stored, create_ephemeral_key, store_key) at e)))
    ]

-- A session key that was created at an index that is new is there afterwards, and with it there are
-- eight session keys of its name at most, whatever keys there were before.
pub created-bounded :
    (crypto : Crypto) (fault : DbStep → Bool) (m m' : ApiKeyManager) (name : String)
    (permissions : List String) (expires_at now : ℕ) (d : Draw) (result : String × List ℕ)
    → contains_key (crypto.sha256_index (raw_key_of d)) (retain (unexpired now) m.keys) ≡ false
    → create_ephemeral_key crypto fault m name permissions expires_at d now ≡ (m', ok result)
    → (count (of_name name) m'.keys ≤ max_active_per_ephemeral_name)
      × ((s : StoredKey) × (lookup (crypto.sha256_index (raw_key_of d)) m'.keys ≡ some s)
          × (s.info.id ≡ d.key_id)
          × (s.info.name ≡ name)
          × (s.info.expires_at ≡ some expires_at))
created-bounded crypto fault m m' name permissions expires_at now d result free e =
    let index = crypto.sha256_index (raw_key_of d) in
    let (h, keys) = created-keys crypto fault m m' name permissions expires_at now d result e in
    let stored = stored_key (request name permissions expires_at) d h now in
    let all_keys = insert index stored (retain (unexpired now) m.keys) in
    let once : count (λ k. str_eq k.0 index) all_keys ≤ 1 =
      omega (arith, count-insert index stored (retain (unexpired now) m.keys) free) in
    let there : lookup index all_keys ≡ some stored =
      lookup-insert index index stored (retain (unexpired now) m.keys)
      ∙ rw ((eq_iff index index).1 refl) refl in
    (
      rw keys (evict-count name index all_keys),
      (
        stored,
        ap (lookup index) keys ∙ evict-lookup name index all_keys once ∙ there,
        refl,
        refl,
        refl,
      ),
    )
