-- ===== src/Auth/Quota/Stores.antt =====
-- The rows and the windows of `consume_subject_quota`, each against the log of admissions.
use easy_bot.Base.{
  append-Ascends, ℕ, ◌≤◌, ◌≡◌, refl, ◌∙◌, ap, subst, String, Bool, true, false, not, ◌&&◌, List, [],
  ◌∷◌, ◌++◌, if◌then◌else◌, leb, length, count, retain, arith, Bool-cases, All, All-append,
  All-mono, Ascends, inl, inr, count-append, count-retain, eq_iff, str_eq,
}
use easy_bot.Auth.Types.{QuotaEvent, DbStep, Result, ok, err}
use easy_bot.Auth.Quota.{
  QuotaConsumption, is_old, of_subject, pop_old, consume_rows, consume_window,
}
use easy_bot.Auth.Quota.Log.{
  Request, event_of, recent, admits, after, recent-purge, is_alive, alive-pop, length-pop,
  pop-Ascends, pop-All,
}

abbrev pub healthy : DbStep → Bool
healthy step = false

-- The rows agree with the log on every minute from `last` on.
abbrev pub RowsAgree : ℕ → List QuotaEvent → List QuotaEvent → Type 0
RowsAgree last rows log = (s : String) (now : ℕ) → last ≤ now → recent s now rows ≡ recent s now log

abbrev pub WindowAgrees : ℕ → List QuotaEvent → String → List ℕ → Type 0
WindowAgrees last log s ts =
    Ascends 0 ts
    × All (λ t. t ≤ last) ts
    × ((now : ℕ) → last ≤ now → count (is_alive now) ts ≡ recent s now log)

pub kept_rows : List QuotaEvent → Request → List QuotaEvent
kept_rows rows r = retain (λ e. not (is_old r.now e)) rows

pub rows_allowed : List QuotaEvent → Request → Bool
unfolding kept_rows
rows_allowed rows r = not (leb r.limit (count (of_subject r.subject_id) (kept_rows rows r)))

pub rows_after : List QuotaEvent → Request → List QuotaEvent
unfolding kept_rows rows_allowed
rows_after rows r =
    if rows_allowed rows r then kept_rows rows r ++ event_of r ∷ [] else kept_rows rows r

-- What a step does to the state, and what it decides.
abbrev pub Steps : {S : Type 0} → Result (S × QuotaConsumption) → S → Bool → Type 0
Steps (ok out) next allowed = (out.0 ≡ next) × (out.1.allowed ≡ allowed)
Steps (err e) next allowed = ⊥

pub consume_rows-Steps :
    (rows : List QuotaEvent) (r : Request)
    → Steps
        (consume_rows healthy rows r.subject_id r.limit r.now)
        (rows_after rows r)
        (rows_allowed rows r)
unfolding consume_rows rows_after rows_allowed kept_rows
consume_rows-Steps rows r =
    elim (Bool-cases
      (leb r.limit (count (of_subject r.subject_id) (retain (λ e. not (is_old r.now e)) rows)))) [
        | inl e ↦ rw (e, consume_rows) (refl, refl)
        | inr e ↦ rw (e, consume_rows) (refl, refl)
      ]

pub rows_allowed-admits :
    (last : ℕ) (rows log : List QuotaEvent) (r : Request)
    → RowsAgree last rows log
    → last ≤ r.now
    → rows_allowed rows r ≡ admits log r
unfolding rows_allowed kept_rows
rows_allowed-admits last rows log r h le =
    ap (λ (n : ℕ). not (leb r.limit n))
      (count-retain (of_subject r.subject_id) (λ e. not (is_old r.now e)) rows
        ∙ h r.subject_id r.now le)

pub recent-append :
    (b : Bool) (s : String) (now : ℕ) (kept log : List QuotaEvent) (e : QuotaEvent)
    → recent s now kept ≡ recent s now log
    → recent s now (if b then kept ++ e ∷ [] else kept) ≡ recent s now (if b then e ∷ log else log)
recent-append false s now kept log e h = h
recent-append true s now kept log e h =
    count-append (λ x. of_subject s x && not (is_old now x)) kept (e ∷ []) ∙ ground (arith, h)

pub rows_after-RowsAgree :
    (last : ℕ) (rows log : List QuotaEvent) (r : Request)
    → RowsAgree last rows log
    → last ≤ r.now
    → RowsAgree r.now (rows_after rows r) (after log r)
unfolding rows_after kept_rows
rows_after-RowsAgree last rows log r h le s now k =
    subst
      (λ (b : Bool).
        recent s now (rows_after rows r) ≡ recent s now (if b then event_of r ∷ log else log))
      (rows_allowed-admits last rows log r h le)
      (recent-append (rows_allowed rows r) s now (kept_rows rows r) log (event_of r)
        (recent-purge s r.now now rows k ∙ h s now (omega (arith, le, k))))

pub kept_window : List ℕ → Request → List ℕ
kept_window ts r = pop_old r.now ts

pub window_allowed : List ℕ → Request → Bool
unfolding kept_window
window_allowed ts r = not (leb r.limit (length (kept_window ts r)))

pub window_after : List ℕ → Request → List ℕ
unfolding kept_window window_allowed
window_after ts r = if window_allowed ts r then kept_window ts r ++ r.now ∷ [] else kept_window ts r

pub consume_window-Steps :
    (ts : List ℕ) (r : Request)
    → Steps (ok (consume_window ts r.limit r.now)) (window_after ts r) (window_allowed ts r)
unfolding consume_window window_after window_allowed kept_window
consume_window-Steps ts r = elim (Bool-cases (leb r.limit (length (pop_old r.now ts)))) [
  | inl e ↦ rw (e, consume_window) (refl, refl)
  | inr e ↦ rw (e, consume_window) (refl, refl)
]

pub window_allowed-admits :
    (last : ℕ) (log : List QuotaEvent) (ts : List ℕ) (r : Request)
    → WindowAgrees last log r.subject_id ts
    → last ≤ r.now
    → window_allowed ts r ≡ admits log r
unfolding window_allowed kept_window
window_allowed-admits last log ts r (up, old, same) le =
    ap (λ (n : ℕ). not (leb r.limit n)) (length-pop r.now 0 ts up ∙ same r.now le)

pub window_append :
    (b : Bool) (log : List QuotaEvent) (r : Request) (ts : List ℕ)
    → WindowAgrees r.now log r.subject_id ts
    → WindowAgrees r.now
        (if b then event_of r ∷ log else log)
        r.subject_id
        (if b then ts ++ r.now ∷ [] else ts)
window_append false log r ts h = h
window_append true log r ts (up, old, same) = (
  append-Ascends 0 r.now ts (omega arith) up old,
  All-append (λ t. t ≤ r.now) ts (r.now ∷ []) old (omega arith, tt),
  λ now k.
      count-append (is_alive now) ts (r.now ∷ [])
      ∙ ground (arith, same now k, eq_iff r.subject_id r.subject_id),
)

-- The window of another subject, and of any subject once the clock has moved on.
pub window_other :
    (b : Bool) (last : ℕ) (log : List QuotaEvent) (r : Request) (s : String) (ts : List ℕ)
    → str_eq r.subject_id s ≡ false
    → last ≤ r.now
    → WindowAgrees last log s ts
    → WindowAgrees r.now (if b then event_of r ∷ log else log) s ts
window_other b last log r s ts ne le (up, old, same) = (
  up,
  All-mono (λ t. t ≤ last) (λ t. t ≤ r.now) ts (λ t k. omega (arith, le, k)) old,
  λ now k. same now (omega (arith, le, k)) ∙ go b now,
)
  where
    go :
        (c : Bool) (now : ℕ) → recent s now log ≡ recent s now (if c then event_of r ∷ log else log)
    go false now = refl
    go true now = ground (arith, ne)

pub window_popped :
    (last : ℕ) (log : List QuotaEvent) (r : Request) (ts : List ℕ)
    → last ≤ r.now
    → WindowAgrees last log r.subject_id ts
    → WindowAgrees r.now log r.subject_id (pop_old r.now ts)
window_popped last log r ts le (up, old, same) = (
  pop-Ascends r.now 0 ts up,
  pop-All (λ t. t ≤ r.now) r.now ts
      (All-mono (λ t. t ≤ last) (λ t. t ≤ r.now) ts (λ t k. omega (arith, le, k)) old),
  λ now k. alive-pop r.now now ts k ∙ same now (omega (arith, le, k)),
)

pub window_after-WindowAgrees :
    (last : ℕ) (log : List QuotaEvent) (ts : List ℕ) (r : Request)
    → WindowAgrees last log r.subject_id ts
    → last ≤ r.now
    → WindowAgrees r.now (after log r) r.subject_id (window_after ts r)
unfolding window_after kept_window
window_after-WindowAgrees last log ts r h le =
    subst
      (λ (b : Bool).
        WindowAgrees r.now (if b then event_of r ∷ log else log) r.subject_id (window_after ts r))
      (window_allowed-admits last log ts r h le)
      (window_append (window_allowed ts r) log r (pop_old r.now ts)
        (window_popped last log r ts le h))
