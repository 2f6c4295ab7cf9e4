-- ===== src/Auth/Quota/Log.antt =====
-- What a quota promises: a request is admitted if fewer than the limit of its subject were admitted
-- in the last minute. The log keeps every admission, and forgets how the code stores them.
use easy_bot.Base.{
  ℕ, ◌+◌, ◌≤◌, ◌≡◌, refl, ◌∙◌, String, Bool, true, not, ◌&&◌, List, [], ◌∷◌, if◌then◌else◌, leb,
  length, count, retain, arith, Bool-cases, All, Ascends, inl, inr, ◌/◌, ◌-◌,
}
use easy_bot.Auth.Types.{QuotaEvent}
use easy_bot.Auth.Quota.{window_ms, is_old, of_subject, pop_old}

pub record Request : Type 0 where
  pub subject_id : String
  pub limit : ℕ
  pub now : ℕ

abbrev pub event_of : Request → QuotaEvent
event_of r = record { subject_id = r.subject_id; occurred_at = r.now }

-- The admissions of a subject in the minute before `now`.
abbrev pub recent : String → ℕ → List QuotaEvent → ℕ
recent subject_id now log = count (λ e. of_subject subject_id e && not (is_old now e)) log

abbrev pub admits : List QuotaEvent → Request → Bool
admits log r = not (leb r.limit (recent r.subject_id r.now log))

abbrev pub after : List QuotaEvent → Request → List QuotaEvent
after log r = if admits log r then event_of r ∷ log else log

unfoldable pub promised : List QuotaEvent → List Request → List Bool
promised log [] = []
promised log (r ∷ rs) = admits log r ∷ promised (after log r) rs

-- The clock does not run backwards over the requests.
abbrev pub InOrder : ℕ → List Request → Type 0
InOrder last [] = Unit
InOrder last (r ∷ rs) = (last ≤ r.now) × InOrder r.now rs

-- Rows that the purge at `now` deletes are old ever after.
pub recent-purge :
    (subject_id : String) (now later : ℕ) (rows : List QuotaEvent)
    → now ≤ later
    → recent subject_id later (retain (λ e. not (is_old now e)) rows) ≡ recent subject_id later rows
recent-purge s now later [] h = refl
recent-purge s now later (e ∷ es) h = ground (arith, recent-purge s now later es h)

abbrev pub is_alive : ℕ → ℕ → Bool
is_alive now t = not (leb (t + window_ms) now)

pub pop_test : (now t : ℕ) → leb 60 ((now - t) / 1000) ≡ leb (t + window_ms) now
pop_test now t = ground arith

pub alive-pop :
    (now later : ℕ) (ts : List ℕ)
    → now ≤ later
    → count (is_alive later) (pop_old now ts) ≡ count (is_alive later) ts
alive-pop now later [] h = refl
alive-pop now later (t ∷ ts) h = elim (Bool-cases (leb (t + window_ms) now)) [
  | inl e ↦ rw (pop_test now t, e) (alive-pop now later ts h ∙ ground (arith, e, h))
  | inr e ↦ rw (pop_test now t, e) refl
]

alive-all :
    (now from : ℕ) (ts : List ℕ)
    → is_alive now from ≡ true
    → Ascends from ts
    → count (is_alive now) ts ≡ length ts
alive-all now from [] a h = refl
alive-all now from (t ∷ ts) a (le, h) =
    let b : is_alive now t ≡ true = ground (arith, a, le) in
    rw b (omega (arith, alive-all now t ts b h))

pub length-pop :
    (now from : ℕ) (ts : List ℕ)
    → Ascends from ts
    → length (pop_old now ts) ≡ count (is_alive now) ts
length-pop now from [] h = refl
length-pop now from (t ∷ ts) (le, h) = elim (Bool-cases (leb (t + window_ms) now)) [
  | inl e ↦ rw (pop_test now t, e) (length-pop now t ts h)
  | inr e ↦ rw (pop_test now t, e) (omega (arith, alive-all now t ts (rw e refl) h))
]

pub pop-Ascends : (now from : ℕ) (ts : List ℕ) → Ascends from ts → Ascends from (pop_old now ts)
pop-Ascends now from [] h = tt
pop-Ascends now from (t ∷ ts) (le, h) = elim (Bool-cases (leb 60 ((now - t) / 1000))) [
  | inl e ↦ rw e (weaken from t (pop_old now ts) le (pop-Ascends now t ts h))
  | inr e ↦ rw e (le, h)
]
  where
    weaken : (a b : ℕ) (us : List ℕ) → a ≤ b → Ascends b us → Ascends a us
    weaken a b [] le k = tt
    weaken a b (u ∷ us) le (l, k) = (omega (arith, le, l), k)

pub pop-All : (P : ℕ → Type 0) (now : ℕ) (ts : List ℕ) → All P ts → All P (pop_old now ts)
pop-All P now [] h = tt
pop-All P now (t ∷ ts) (p, h) = elim (Bool-cases (leb 60 ((now - t) / 1000))) [
  | inl e ↦ rw e (pop-All P now ts h)
  | inr e ↦ rw e (p, h)
]
