-- ===== src/Base/Maps.antt =====
-- Hash maps with text keys, as association lists in the order in which the map is iterated.
use Prim.Native.Nat.{suc, ◌≤◌}
use Prim.Native.String.{String}
use mathlib.Core.Path.{◌≡◌, refl, subst}
use mathlib.Core.Logic.{inl, inr}
use mathlib.Core.Bool.{Bool, true, false}
use mathlib.Core.Option.{Option, none, some}
use mathlib.Core.List.{List, [], ◌∷◌}
use native.Mathlib.Omega.{arith}
use text.Mathlib.Text.{◌==◌ as str_eq}
use text.Mathlib.TextEquality.{eq_iff}
use easy_bot.Base.Tests.{if◌then◌else◌, Bool-cases}
use easy_bot.Base.Lists.{length, All}

module _ {ℓ} {V : Type ℓ} where
  unfoldable pub lookup : String → List (String × V) → Option V
  lookup key [] = none
  lookup key ((name, value) ∷ entries) = if str_eq name key then some value else lookup key entries

  -- Replaces the value of a known key where it stands.
  unfoldable pub insert : String → V → List (String × V) → List (String × V)
  insert key value [] = (key, value) ∷ []
  insert key value (entry ∷ entries) =
      if str_eq entry.0 key then (key, value) ∷ entries else entry ∷ insert key value entries

  unfoldable pub remove : String → List (String × V) → List (String × V)
  remove key [] = []
  remove key ((name, held) ∷ entries) =
      if str_eq name key then remove key entries else (name, held) ∷ remove key entries

  unfoldable pub contains_key : String → List (String × V) → Bool
  contains_key key [] = false
  contains_key key ((name, held) ∷ entries) =
      if str_eq name key then true else contains_key key entries

  pub lookup-insert :
      (key name : String) (value : V) (entries : List (String × V))
      → lookup name (insert key value entries)
        ≡ (if str_eq key name then some value else lookup name entries)
  unfolding lookup insert
  lookup-insert key name value [] = refl
  lookup-insert key name value ((head, held) ∷ entries) = ground (
    arith,
    eq_iff key name,
    eq_iff head key,
    eq_iff head name,
    lookup-insert key name value entries,
  )

  pub lookup-remove :
      (key name : String) (entries : List (String × V))
      → lookup name (remove key entries) ≡ (if str_eq key name then none else lookup name entries)
  unfolding lookup remove
  lookup-remove key name [] = ground arith
  lookup-remove key name ((head, held) ∷ entries) =
      ground
        (arith, eq_iff key name, eq_iff head key, eq_iff head name, lookup-remove key name entries)

  pub contains_key-insert :
      (key name : String) (value : V) (entries : List (String × V))
      → contains_key name (insert key value entries)
        ≡ (if str_eq key name then true else contains_key name entries)
  unfolding contains_key insert
  contains_key-insert key name value [] = refl
  contains_key-insert key name value ((head, held) ∷ entries) = ground (
    arith,
    eq_iff key name,
    eq_iff head key,
    eq_iff head name,
    contains_key-insert key name value entries,
  )

  pub contains_key-remove :
      (key name : String) (entries : List (String × V))
      → contains_key name (remove key entries)
        ≡ (if str_eq key name then false else contains_key name entries)
  unfolding contains_key remove
  contains_key-remove key name [] = ground arith
  contains_key-remove key name ((head, held) ∷ entries) = ground (
    arith,
    eq_iff key name,
    eq_iff head key,
    eq_iff head name,
    contains_key-remove key name entries,
  )

  pub contains_key-lookup :
      (key : String) (value : V) (entries : List (String × V))
      → lookup key entries ≡ some value
      → contains_key key entries ≡ true
  unfolding contains_key lookup
  contains_key-lookup key value [] h = absurd (cc h)
  contains_key-lookup key value ((head, held) ∷ entries) h =
      ground (arith, contains_key-lookup key value entries)

  pub contains_key-missing :
      (key : String) (entries : List (String × V))
      → lookup key entries ≡ none
      → contains_key key entries ≡ false
  unfolding contains_key lookup
  contains_key-missing key [] h = refl
  contains_key-missing key ((head, held) ∷ entries) h =
      ground (arith, contains_key-missing key entries)

  pub length-insert :
      (key : String) (value : V) (entries : List (String × V))
      → length (insert key value entries)
        ≡ (if contains_key key entries then length entries else suc (length entries))
  unfolding insert contains_key
  length-insert key value [] = refl
  length-insert key value ((name, held) ∷ entries) = ground (arith, length-insert key value entries)

  pub length-remove-le :
      (key : String) (entries : List (String × V)) → length (remove key entries) ≤ length entries
  unfolding remove
  length-remove-le key [] = omega arith
  length-remove-le key ((name, held) ∷ entries) = ground (arith, length-remove-le key entries)

  pub length-remove-lt :
      (key : String) (entries : List (String × V))
      → contains_key key entries ≡ true
      → suc (length (remove key entries)) ≤ length entries
  unfolding remove contains_key
  length-remove-lt key [] h = absurd (cc h)
  length-remove-lt key ((name, held) ∷ entries) h =
      ground (arith, length-remove-lt key entries, length-remove-le key entries)

module _ {ℓ κ} {V : Type ℓ} (P : String × V → Type κ) where
  pub All-insert :
      (k : String) (v : V) (m : List (String × V)) → P (k, v) → All P m → All P (insert k v m)
  unfolding insert
  All-insert k v [] p h = (p, tt)
  All-insert k v ((j, w) ∷ m) p (q, h) = go (str_eq j k) (All-insert k v m p h)
    where
      go :
          (b : Bool)
          → All P (insert k v m)
          → All P (if b then (k, v) ∷ m else (j, w) ∷ insert k v m)
      go true r = (p, h)
      go false r = (q, r)

  pub All-remove : (k : String) (m : List (String × V)) → All P m → All P (remove k m)
  unfolding remove
  All-remove k [] h = tt
  All-remove k ((j, w) ∷ m) (q, h) = go (str_eq j k) (All-remove k m h)
    where
      go : (b : Bool) → All P (remove k m) → All P (if b then remove k m else (j, w) ∷ remove k m)
      go true r = r
      go false r = (q, r)

  pub All-lookup :
      (k : String) (m : List (String × V)) (v : V) → All P m → lookup k m ≡ some v → P (k, v)
  unfolding lookup
  All-lookup k [] v h e = absurd (cc e)
  All-lookup k ((j, w) ∷ m) v (q, h) e = elim (Bool-cases (str_eq j k)) [
    | inl same ↦
        let e' : w ≡ v = ground (arith, same) in
        subst (λ (t : String). P (t, v)) ((eq_iff j k).0 same) (subst (λ (u : V). P (j, u)) e' q)
    | inr other ↦ All-lookup k m v h (ground (arith, other))
  ]
