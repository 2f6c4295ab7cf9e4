-- ===== src/Session/Key.antt =====
-- crates/easybot-core/src/types/session.rs: the key of a session (`build_key`). Texts are bytes; a
-- colon is one byte, and no part of another character.
use easy_bot.Base.{
  ℕ, ◌≡◌, refl, ap, ◌∙◌, inl, inr, Option, none, some, List, [], ◌∷◌, ◌++◌, if◌then◌else◌, ◌==◌,
  Bool-cases,
}

unfoldable pub safe : List ℕ → List ℕ
safe [] = []
safe (c ∷ cs) = (if c == b':' then b'_' else c) ∷ safe cs

unfoldable pub build_key : List ℕ → List ℕ → Option (List ℕ) → List ℕ
unfolding safe
build_key platform chat_id none = safe platform ++ b':' ∷ safe chat_id
build_key platform chat_id (some []) = safe platform ++ b':' ∷ safe chat_id
build_key platform chat_id (some (c ∷ cs)) =
    safe platform ++ b':' ∷ (safe chat_id ++ b':' ∷ safe (c ∷ cs))

-- The text up to the first colon, and the text behind it.
abbrev pub before_colon : List ℕ → List ℕ
before_colon [] = []
before_colon (c ∷ cs) = if c == b':' then [] else c ∷ before_colon cs

abbrev pub after_colon : List ℕ → List ℕ
after_colon [] = []
after_colon (c ∷ cs) = if c == b':' then cs else after_colon cs

abbrev pub thread_of : Option (List ℕ) → List ℕ
thread_of none = []
thread_of (some t) = safe t

before-safe : (t r : List ℕ) → before_colon (safe t ++ b':' ∷ r) ≡ safe t
unfolding safe
before-safe [] r = refl
before-safe (c ∷ cs) r = elim (Bool-cases (c == b':')) [
  | inl e ↦ rw e (ap (λ (u : List ℕ). b'_' ∷ u) (before-safe cs r))
  | inr e ↦ rw (e, e) (ap (λ (u : List ℕ). c ∷ u) (before-safe cs r))
]

after-safe : (t r : List ℕ) → after_colon (safe t ++ b':' ∷ r) ≡ r
unfolding safe
after-safe [] r = refl
after-safe (c ∷ cs) r = elim (Bool-cases (c == b':')) [
  | inl e ↦ rw e (after-safe cs r)
  | inr e ↦ rw (e, e) (after-safe cs r)
]

before-safe_alone : (t : List ℕ) → before_colon (safe t) ≡ safe t
unfolding safe
before-safe_alone [] = refl
before-safe_alone (c ∷ cs) = elim (Bool-cases (c == b':')) [
  | inl e ↦ rw e (ap (λ (u : List ℕ). b'_' ∷ u) (before-safe_alone cs))
  | inr e ↦ rw (e, e) (ap (λ (u : List ℕ). c ∷ u) (before-safe_alone cs))
]

after-safe_alone : (t : List ℕ) → after_colon (safe t) ≡ []
unfolding safe
after-safe_alone [] = refl
after-safe_alone (c ∷ cs) = elim (Bool-cases (c == b':')) [
  | inl e ↦ rw e (after-safe_alone cs)
  | inr e ↦ rw (e, e) (after-safe_alone cs)
]

-- The parts of a key can be read back, with their colons replaced: two sessions share a key only if
-- their platforms, chats and threads agree up to that replacement.
pub build_key-parts :
    (platform chat_id : List ℕ) (thread_id : Option (List ℕ))
    → (before_colon (build_key platform chat_id thread_id) ≡ safe platform)
      × (before_colon (after_colon (build_key platform chat_id thread_id)) ≡ safe chat_id)
      × (after_colon (after_colon (build_key platform chat_id thread_id)) ≡ thread_of thread_id)
unfolding build_key
build_key-parts p c none = (
  before-safe p (safe c),
  ap before_colon (after-safe p (safe c)) ∙ before-safe_alone c,
  ap after_colon (after-safe p (safe c)) ∙ after-safe_alone c,
)
build_key-parts p c (some []) = (
  before-safe p (safe c),
  ap before_colon (after-safe p (safe c)) ∙ before-safe_alone c,
  ap after_colon (after-safe p (safe c)) ∙ after-safe_alone c,
)
build_key-parts p c (some (x ∷ xs)) =
    let rest = safe c ++ b':' ∷ safe (x ∷ xs) in
    (
      before-safe p rest,
      ap before_colon (after-safe p rest) ∙ before-safe c (safe (x ∷ xs)),
      ap after_colon (after-safe p rest) ∙ after-safe c (safe (x ∷ xs)),
    )
