-- ===== src/Auth/Ephemeral/Bound.antt =====
-- crates/easybot-core/src/auth/api_key/keys.rs: how many session keys of one name there are.
use easy_bot.Base.{
  ℕ, suc, zero, ◌+◌, ◌≤◌, ◌≡◌, refl, sym, ap, ◌∙◌, inl, inr, String, Bool, true, not, ◌&&◌, List,
  [], ◌∷◌, map, str_eq, eq_iff, any, retain, count, count-retain, drop, remove, arith, Bool-cases,
}
use easy_bot.Auth.Types.{StoredKey}
use easy_bot.Auth.Ephemeral.{
  of_name, Candidate, candidate, comes_first, place, sorted, remove_all, evict,
  max_active_per_ephemeral_name,
}

abbrev listed : List Candidate → String → Bool
listed cs s = any (λ c. str_eq s c.index) cs

remove-retain :
    (k : String) (keys : List (String × StoredKey))
    → remove k keys ≡ retain (λ e. not (str_eq e.0 k)) keys
unfolding remove
remove-retain k [] = refl
remove-retain k ((j, s) ∷ keys) = ground (arith, remove-retain k keys)

count_same {ℓ} :
    {A : Type ℓ} (p q : A → Bool) (xs : List A) → ((x : A) → p x ≡ q x) → count p xs ≡ count q xs
count_same p q [] h = refl
count_same p q (x ∷ xs) h = ground (arith, h x, count_same p q xs h)

pub count-map {ℓ κ} :
    {A : Type ℓ} {B : Type κ} (p : B → Bool) (f : A → B) (xs : List A)
    → count p (map f xs) ≡ count (λ x. p (f x)) xs
count-map p f [] = refl
count-map p f (x ∷ xs) = ground (arith, count-map p f xs)

count-remove_all :
    (p : String × StoredKey → Bool) (cs : List Candidate) (keys : List (String × StoredKey))
    → count p (remove_all cs keys) ≡ count (λ e. p e && not (listed cs e.0)) keys
count-remove_all p [] keys = count_same p (λ e. p e && true) keys (λ e. ground arith)
count-remove_all p (c ∷ cs) keys =
    count-remove_all p cs (remove c.index keys)
    ∙ ap (count (λ e. p e && not (listed cs e.0))) (remove-retain c.index keys)
    ∙ count-retain (λ e. p e && not (listed cs e.0)) (λ e. not (str_eq e.0 c.index)) keys
    ∙ count_same (λ e. (p e && not (listed cs e.0)) && not (str_eq e.0 c.index))
        (λ e. p e && not (listed (c ∷ cs) e.0)) keys (λ e. ground arith)

count-place :
    (p : Candidate → Bool) (c : Candidate) (cs : List Candidate)
    → count p (place c cs) ≡ count p (c ∷ cs)
unfolding place
count-place p c [] = refl
count-place p c (d ∷ ds) = elim (Bool-cases (comes_first c d)) [
  | inl e ↦ rw e refl
  | inr e ↦ rw e (ground (arith, count-place p c ds))
]

count-sorted : (p : Candidate → Bool) (cs : List Candidate) → count p (sorted cs) ≡ count p cs
unfolding sorted
count-sorted p [] = refl
count-sorted p (c ∷ cs) = count-place p c (sorted cs) ∙ ground (arith, count-sorted p cs)

count-take-drop :
    (p : Candidate → Bool) (n : ℕ) (cs : List Candidate) → count p cs ≤ n + count p (drop n cs)
count-take-drop p zero cs = omega arith
count-take-drop p (suc n) [] = omega arith
count-take-drop p (suc n) (c ∷ cs) = ground (arith, count-take-drop p n cs)

-- Every candidate of a list is listed.
count-listed :
    (cs ds : List Candidate)
    → ((s : String) → listed ds s ≡ true → listed cs s ≡ true)
    → count (λ c. not (listed cs c.index)) ds ≡ 0
count-listed cs [] h = refl
count-listed cs (d ∷ ds) h =
    let own : listed cs d.index ≡ true = h d.index (rw ((eq_iff d.index d.index).1 refl) refl) in
    rw own (count-listed cs ds (λ s e. h s (ground (arith, e))))

pub evict-count :
    (name index : String) (keys : List (String × StoredKey))
    → count (of_name name) (evict name index keys) ≤ max_active_per_ephemeral_name
unfolding evict
evict-count name index keys =
    let same = retain (of_name name) keys in
    let order = sorted (map (candidate index) same) in
    let cs = drop max_active_per_ephemeral_name order in
    let kept : Candidate → Bool = λ c. not (listed cs c.index) in
    let total : count (of_name name) (remove_all cs keys) ≡ count kept order =
      count-remove_all (of_name name) cs keys
      ∙ count_same (λ e. of_name name e && not (listed cs e.0))
          (λ e. not (listed cs e.0) && of_name name e) keys (λ e. ground arith)
      ∙ sym (count-retain (λ e. not (listed cs e.0)) (of_name name) keys)
      ∙ sym (count-map kept (candidate index) same)
      ∙ sym (count-sorted kept (map (candidate index) same)) in
    omega (
      arith,
      total,
      count-take-drop kept max_active_per_ephemeral_name order,
      count-listed cs cs (λ s e. e),
    )
