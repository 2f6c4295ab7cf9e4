-- ===== src/Persist/Firsts.antt =====
-- What `INSERT OR IGNORE` keeps: under each id the row that was there first.
use easy_bot.Base.{
  ◌≡◌, refl, sym, ap, ◌∙◌, inl, inr, String, true, Option, none, some, List, [], ◌∷◌, ◌++◌, lookup,
  contains_key, contains_key-missing, str_eq, eq_iff, Bool-cases, Option-cases,
}
use mathlib.Core.List.{append_assoc, append-nil}
use easy_bot.Persist.Persister.{insert_or_ignore, store_messages}

abbrev or_else {ℓ} : {A : Type ℓ} → Option A → Option A → Option A
or_else none y = y
or_else (some x) y = some x

module _ {T : Type 0} where
  lookup-append :
      (k : String) (xs ys : List (String × T))
      → lookup k (xs ++ ys) ≡ or_else (lookup k xs) (lookup k ys)
  unfolding lookup
  lookup-append k [] ys = refl
  lookup-append k ((j, v) ∷ xs) ys = elim (Bool-cases (str_eq j k)) [
    | inl e ↦ rw e refl
    | inr e ↦ rw e (lookup-append k xs ys)
  ]

  -- A message of an id that is there does not show behind the rows.
  known-hidden :
      (k : String) (rows : List (String × T)) (m : String × T)
      → contains_key m.0 rows ≡ true
      → lookup k rows ≡ lookup k (rows ++ m ∷ [])
  unfolding lookup
  known-hidden k rows m h = elim (Option-cases (lookup k rows)) [
    | inr (v, e) ↦ e ∙ sym (lookup-append k rows (m ∷ []) ∙ rw e refl)
    | inl e ↦ elim (Bool-cases (str_eq m.0 k)) [
      | inl same ↦
          let missing = contains_key-missing k rows e in
          let here = ap (λ (i : String). contains_key i rows) ((eq_iff m.0 k).0 same) in
          absurd (cc (missing, here, h))
      | inr other ↦ e ∙ sym (lookup-append k rows (m ∷ []) ∙ rw (e, other) refl)
    ]
  ]

  lookup-ignore :
      (k : String) (rows : List (String × T)) (m : String × T)
      → lookup k (insert_or_ignore rows m) ≡ lookup k (rows ++ m ∷ [])
  lookup-ignore k rows m = elim (Bool-cases (contains_key m.0 rows)) [
    | inl e ↦ rw e (known-hidden k rows m e)
    | inr e ↦ rw e refl
  ]

  pub lookup-store :
      (k : String) (rows ms : List (String × T))
      → lookup k (store_messages rows ms) ≡ lookup k (rows ++ ms)
  unfolding store_messages
  lookup-store k rows [] = ap (lookup k) (sym (append-nil rows))
  lookup-store k rows (m ∷ ms) =
      lookup-store k (insert_or_ignore rows m) ms
      ∙ lookup-append k (insert_or_ignore rows m) ms
      ∙ ap (λ (o : Option T). or_else o (lookup k ms)) (lookup-ignore k rows m)
      ∙ sym (lookup-append k (rows ++ m ∷ []) ms)
      ∙ ap (lookup k) (append_assoc rows (m ∷ []) ms)
