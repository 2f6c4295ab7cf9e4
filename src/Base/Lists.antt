-- ===== src/Base/Lists.antt =====
-- Lists measured by native numbers, under the library's names, and filters by Boolean tests.
use Prim.Native.Nat.{ℕ, zero, suc, ◌+◌, ◌≤◌}
use mathlib.Core.Path.{◌≡◌, refl, subst}
use mathlib.Core.Logic.{inl, inr}
use mathlib.Core.Bool.{Bool, true, false, ◌&&◌, ◌||◌}
use mathlib.Core.Option.{Option, none, some}
use mathlib.Core.List.{List, [], ◌∷◌, ◌++◌, map, reverse, reverse-cons}
use native.Mathlib.Omega.{arith}
use easy_bot.Base.Tests.{if◌then◌else◌, ◌==◌, Bool-cases}
use Prim.Native.String.{String}
use text.Mathlib.Text.{◌==◌ as str_eq}

module _ {ℓ} {A : Type ℓ} where
  abbrev pub length : List A → ℕ
  length [] = 0
  length (x ∷ xs) = suc (length xs)

  abbrev pub take : ℕ → List A → List A
  take zero xs = []
  take (suc n) [] = []
  take (suc n) (x ∷ xs) = x ∷ take n xs

  abbrev pub drop : ℕ → List A → List A
  drop zero xs = xs
  drop (suc n) [] = []
  drop (suc n) (x ∷ xs) = drop n xs

  abbrev pub replicate : ℕ → A → List A
  replicate zero a = []
  replicate (suc n) a = a ∷ replicate n a

  -- `retain`, `filter` and `count` of a Boolean test.
  abbrev pub retain : (A → Bool) → List A → List A
  retain p [] = []
  retain p (x ∷ xs) = if p x then x ∷ retain p xs else retain p xs

  abbrev pub count : (A → Bool) → List A → ℕ
  count p [] = 0
  count p (x ∷ xs) = if p x then suc (count p xs) else count p xs

  abbrev pub any : (A → Bool) → List A → Bool
  any p [] = false
  any p (x ∷ xs) = p x || any p xs

  abbrev pub all : (A → Bool) → List A → Bool
  all p [] = true
  all p (x ∷ xs) = p x && all p xs

  abbrev pub find : (A → Bool) → List A → Option A
  find p [] = none
  find p (x ∷ xs) = if p x then some x else find p xs

  pub length-append : (xs ys : List A) → length (xs ++ ys) ≡ length xs + length ys
  length-append [] ys = omega arith
  length-append (x ∷ xs) ys = omega (arith, length-append xs ys)

  pub length-retain : (p : A → Bool) (xs : List A) → length (retain p xs) ≤ length xs
  length-retain p [] = omega arith
  length-retain p (x ∷ xs) = ground (arith, length-retain p xs)

  pub count-le-length : (p : A → Bool) (xs : List A) → count p xs ≤ length xs
  count-le-length p [] = omega arith
  count-le-length p (x ∷ xs) = ground (arith, count-le-length p xs)

  pub count-append : (p : A → Bool) (xs ys : List A) → count p (xs ++ ys) ≡ count p xs + count p ys
  count-append p [] ys = omega arith
  count-append p (x ∷ xs) ys = ground (arith, count-append p xs ys)

  -- A predicate of every entry, by recursion.
  abbrev pub All {κ} : (A → Type κ) → List A → Type κ
  All P [] = Unit
  All P (x ∷ xs) = P x × All P xs

  pub All-append {κ} : (P : A → Type κ) (xs ys : List A) → All P xs → All P ys → All P (xs ++ ys)
  All-append P [] ys h k = k
  All-append P (x ∷ xs) ys (p, h) k = (p, All-append P xs ys h k)

  pub All-retain {κ} :
      (P : A → Type κ) (p : A → Bool) (xs : List A) → All P xs → All P (retain p xs)
  All-retain P p [] h = tt
  All-retain P p (x ∷ xs) (q, h) = go (p x) (All-retain P p xs h)
    where
      go : (b : Bool) → All P (retain p xs) → All P (if b then x ∷ retain p xs else retain p xs)
      go true r = (q, r)
      go false r = r

  pub retain-holds : (p : A → Bool) (xs : List A) → All (λ x. p x ≡ true) (retain p xs)
  retain-holds p [] = tt
  retain-holds p (x ∷ xs) = go (p x) refl (retain-holds p xs)
    where
      go :
          (b : Bool)
          → p x ≡ b
          → All (λ y. p y ≡ true) (retain p xs)
          → All (λ y. p y ≡ true) (if b then x ∷ retain p xs else retain p xs)
      go true e r = (e, r)
      go false e r = r

  pub All-intro {κ} : (P : A → Type κ) → ((x : A) → P x) → (xs : List A) → All P xs
  All-intro P f [] = tt
  All-intro P f (x ∷ xs) = (f x, All-intro P f xs)

  pub All-mono {κ κ'} :
      (P : A → Type κ) (Q : A → Type κ') (xs : List A) → ((x : A) → P x → Q x) → All P xs → All Q xs
  All-mono P Q [] f h = tt
  All-mono P Q (x ∷ xs) f (p, h) = (f x p, All-mono P Q xs f h)

  pub All-append_inv {κ} :
      (P : A → Type κ) (xs ys : List A) → All P (xs ++ ys) → All P xs × All P ys
  All-append_inv P [] ys h = (tt, h)
  All-append_inv P (x ∷ xs) ys (p, h) = let (l, r) = All-append_inv P xs ys h in ((p, l), r)

  pub All-reverse_inv {κ} : (P : A → Type κ) (xs : List A) → All P (reverse xs) → All P xs
  All-reverse_inv P [] h = tt
  All-reverse_inv P (x ∷ xs) h =
      let (l, r) = All-append_inv P (reverse xs) (x ∷ []) (rw reverse-cons at h) in
      (r.0, All-reverse_inv P xs l)

  pub All-find {κ} :
      (P : A → Type κ) (p : A → Bool) (xs : List A) (x : A) → All P xs → find p xs ≡ some x → P x
  All-find P p [] x h e = absurd (cc e)
  All-find P p (y ∷ ys) x (q, h) e = elim (Bool-cases (p y)) [
    | inl found ↦ subst P (ground (arith, found)) q
    | inr missed ↦ All-find P p ys x h (ground (arith, missed))
  ]

  pub find-holds : (p : A → Bool) (xs : List A) (x : A) → find p xs ≡ some x → p x ≡ true
  find-holds p [] x h = absurd (cc h)
  find-holds p (y ∷ ys) x h = ground (arith, find-holds p ys x)

  pub find-append :
      (p : A → Bool) (xs : List A) (x y : A) → find p xs ≡ some x → find p (xs ++ y ∷ []) ≡ some x
  find-append p [] x y h = absurd (cc h)
  find-append p (z ∷ xs) x y h = ground (arith, find-append p xs x y)

  pub find-append_end :
      (p : A → Bool) (xs : List A) (y : A)
      → find p xs ≡ none
      → p y ≡ true
      → find p (xs ++ y ∷ []) ≡ some y
  find-append_end p [] y h k = rw k refl
  find-append_end p (x ∷ xs) y h k = ground (arith, find-append_end p xs y, k)

  pub All-count {κ} :
      (P : A → Type κ) (p : A → Bool) (xs : List A)
      → ((x : A) → P x → p x ≡ false)
      → All P xs
      → count p xs ≡ 0
  All-count P p [] f h = refl
  All-count P p (x ∷ xs) f (q, h) = rw (f x q) (All-count P p xs f h)

pub All-map {ℓ κ μ} :
    {A : Type ℓ} {B : Type κ} (P : B → Type μ) (f : A → B) (xs : List A)
    → All (λ x. P (f x)) xs
    → All P (map f xs)
All-map P f [] h = tt
All-map P f (x ∷ xs) (p, h) = (p, All-map P f xs h)

-- Equality of two texts given by their bytes.
abbrev pub bytes_eq : List ℕ → List ℕ → Bool
bytes_eq [] [] = true
bytes_eq [] (_ ∷ _) = false
bytes_eq (_ ∷ _) [] = false
bytes_eq (x ∷ xs) (y ∷ ys) = x == y && bytes_eq xs ys

abbrev pub contains_text : String → List String → Bool
contains_text s [] = false
contains_text s (t ∷ ts) = str_eq t s || contains_text s ts

-- The numbers do not fall, and start at `from` or later.
abbrev pub Ascends : ℕ → List ℕ → Type 0
Ascends from [] = Unit
Ascends from (t ∷ ts) = (from ≤ t) × Ascends t ts

pub count-retain {ℓ} :
    {A : Type ℓ} (p q : A → Bool) (xs : List A) → count p (retain q xs) ≡ count (λ x. p x && q x) xs
count-retain p q [] = refl
count-retain p q (x ∷ xs) = ground (arith, count-retain p q xs)

pub append-Ascends :
    (from now : ℕ) (ts : List ℕ)
    → from ≤ now
    → Ascends from ts
    → All (λ t. t ≤ now) ts
    → Ascends from (ts ++ now ∷ [])
append-Ascends from now [] le h k = (le, tt)
append-Ascends from now (t ∷ ts) le (l, h) (u, k) = (l, append-Ascends t now ts u h k)
