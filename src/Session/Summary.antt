-- ===== src/Session/Summary.antt =====
-- crates/easybot-core/src/session/manager.rs: the summary of a message. A character of three bytes is
-- its bytes.
use easy_bot.Base.{
  ℕ, zero, suc, ◌*◌, ◌<◌, ◌≤◌, ◌≡◌, arith, All, [], ◌∷◌, refl, ◌↔◌, inl, inr, true, none, List, ltb,
  ltb-true, ltb→lt, length, drop, Bool-cases,
}
use easy_bot.Session.Manager.{is_continuation, summary}

-- The cut of a text longer than a hundred bytes panics exactly if byte 97 is inside a character.
summary_panics :
    (t : List ℕ) → (summary t ≡ none) ↔ ((100 < length t) × (is_continuation (drop 97 t) ≡ true))
unfolding summary
summary_panics t = (
  λ h. elim (Bool-cases (ltb 100 (length t))) [
    | inr short ↦ absurd (cc (rw (short, summary) at h))
    | inl long ↦ elim (Bool-cases (is_continuation (drop 97 t))) [
      | inl inside ↦ (ltb→lt 100 (length t) long, inside)
      | inr outside ↦ absurd (cc (rw (long, outside, summary) at h))
    ]
  ],
  λ h. rw (ltb-true 100 (length t) h.0, h.1, summary) refl,
)

-- What UTF-8 encodes in three bytes: the characters from U+0800 to U+FFFF, so most of Chinese.
abbrev pub IsThreeByte : ℕ × ℕ × ℕ → Type 0
IsThreeByte (a, b, c) = ((224 ≤ a) × (a ≤ 239)) × ((128 ≤ b) × (b ≤ 191)) × ((128 ≤ c) × (c ≤ 191))

abbrev pub utf8 : List (ℕ × ℕ × ℕ) → List ℕ
utf8 [] = []
utf8 ((a, b, c) ∷ cs) = a ∷ b ∷ c ∷ utf8 cs

length-utf8 : (cs : List (ℕ × ℕ × ℕ)) → length (utf8 cs) ≡ length cs * 3
length-utf8 [] = refl
length-utf8 ((a, b, c) ∷ cs) = omega (arith, length-utf8 cs)

-- The byte behind the first of a character.
inside_character :
    (n : ℕ) (cs : List (ℕ × ℕ × ℕ))
    → n < length cs
    → All IsThreeByte cs
    → is_continuation (drop (suc (n * 3)) (utf8 cs)) ≡ true
inside_character n [] le wide = absurd (omega (arith, le))
inside_character zero ((a, b, c) ∷ cs) le ((first, (low, high), last), wide) =
    ground (arith, low, high)
inside_character (suc n) ((a, b, c) ∷ cs) le (h, wide) =
    let three : suc n * 3 ≡ suc (suc (suc (n * 3))) = omega arith in
    rw three (inside_character n cs (omega (arith, le)) wide)

-- The summary of any text of 34 or more characters of three bytes panics.
pub wide_text_panics :
    (cs : List (ℕ × ℕ × ℕ)) → 34 ≤ length cs → All IsThreeByte cs → summary (utf8 cs) ≡ none
wide_text_panics cs long wide =
    (summary_panics (utf8 cs)).1
      (omega (arith, long, length-utf8 cs), inside_character 32 cs (omega (arith, long)) wide)
