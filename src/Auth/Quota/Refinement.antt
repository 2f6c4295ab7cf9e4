-- ===== src/Auth/Quota/Refinement.antt =====
-- The decisions of both stores of `consume_subject_quota`, next to those of the log of admissions.
use easy_bot.Base.{
  ℕ, ◌≤◌, ◌≡◌, refl, ◌∙◌, sym, ap, subst, String, Bool, false, Option, none, some, List, [], ◌∷◌,
  Bool-cases, inl, inr, lookup, insert, lookup-insert, eq_iff, str_eq,
}
use easy_bot.Auth.Types.{Result-cases, QuotaEvent, ApiKeyManager, AuthDb, Result, ok, err, new}
use easy_bot.Auth.Quota.{
  QuotaConsumption, consume_rows, consume_window, or_empty, window_of, consume_subject_quota,
}
use easy_bot.Auth.Quota.Log.{Request, recent, admits, after, promised, InOrder}
use easy_bot.Auth.Quota.Stores.{
  healthy, RowsAgree, WindowAgrees, consume_rows-Steps, rows_allowed-admits, rows_after-RowsAgree,
  consume_window-Steps, window_allowed-admits, window_other, window_after-WindowAgrees,
}

abbrev pub was_allowed : Result QuotaConsumption → Bool
was_allowed (ok d) = d.allowed
was_allowed (err e) = false

-- The decisions on requests, one after the other.
abbrev pub decisions : ApiKeyManager → List Request → List Bool
decisions m [] = []
decisions m (r ∷ rs) =
    let (m1, decision) = consume_subject_quota healthy m r.subject_id r.limit r.now in
    was_allowed decision ∷ decisions m1 rs

-- A manager with a database, and one without, that agree with the log from `last` on.
abbrev RowsManager : ApiKeyManager → ℕ → List QuotaEvent → Type 0
RowsManager m last log = (db : AuthDb) × (m.pool ≡ some db) × RowsAgree last db.quota_events log

abbrev WindowManager : ApiKeyManager → ℕ → List QuotaEvent → Type 0
WindowManager m last log =
    (m.pool ≡ none) × ((s : String) → WindowAgrees last log s (window_of s m.quota_windows))

rows_step :
    (m : ApiKeyManager) (last : ℕ) (log : List QuotaEvent) (r : Request)
    → RowsManager m last log
    → last ≤ r.now
    → (was_allowed (consume_subject_quota healthy m r.subject_id r.limit r.now).1 ≡ admits log r)
      × RowsManager
          (consume_subject_quota healthy m r.subject_id r.limit r.now).0
          r.now
          (after log r)
unfolding consume_subject_quota
rows_step m last log r (db, pool, agree) le =
    let steps = consume_rows-Steps db.quota_events r in
    elim (Result-cases (consume_rows healthy db.quota_events r.subject_id r.limit r.now)) [
      | inr (e, h) ↦ absurd (rw h at steps)
      | inl (out, h) ↦
          let (state, allowed) = rw h at steps in
          rw (pool, h, consume_subject_quota)
            (
              allowed ∙ rows_allowed-admits last db.quota_events log r agree le,
              (
                record db { quota_events = out.0 },
                refl,
                subst (λ (rows : List QuotaEvent). RowsAgree r.now rows (after log r)) (sym state)
                    (rows_after-RowsAgree last db.quota_events log r agree le),
              ),
            )
    ]

window_step :
    (m : ApiKeyManager) (last : ℕ) (log : List QuotaEvent) (r : Request)
    → WindowManager m last log
    → last ≤ r.now
    → (was_allowed (consume_subject_quota healthy m r.subject_id r.limit r.now).1 ≡ admits log r)
      × WindowManager
          (consume_subject_quota healthy m r.subject_id r.limit r.now).0
          r.now
          (after log r)
unfolding consume_subject_quota
window_step m last log r (pool, agree) le =
    let ts = window_of r.subject_id m.quota_windows in
    let (state, allowed) = consume_window-Steps ts r in
    let own : WindowAgrees r.now (after log r) r.subject_id (consume_window ts r.limit r.now).0 =
      subst (λ (us : List ℕ). WindowAgrees r.now (after log r) r.subject_id us) (sym state)
        (window_after-WindowAgrees last log ts r (agree r.subject_id) le) in
    rw (pool, consume_subject_quota)
      (
        allowed ∙ window_allowed-admits last log ts r (agree r.subject_id) le,
        (
          pool,
          λ s. window_inserted m last log r s (consume_window ts r.limit r.now).0 own (agree s) le,
        ),
      )
  where
    window_inserted :
        (m : ApiKeyManager) (last : ℕ) (log : List QuotaEvent) (r : Request) (s : String)
        (us : List ℕ)
        → WindowAgrees r.now (after log r) r.subject_id us
        → WindowAgrees last log s (window_of s m.quota_windows)
        → last ≤ r.now
        → WindowAgrees r.now (after log r) s (window_of s (insert r.subject_id us m.quota_windows))
    window_inserted m last log r s us own other le =
        let found = lookup-insert r.subject_id s us m.quota_windows in
        let Holds : Option (List ℕ) → Type 0 =
          λ o. WindowAgrees r.now (after log r) s (or_empty o) in
        elim (Bool-cases (str_eq r.subject_id s)) [
          | inl e ↦
              let own_entry : lookup s (insert r.subject_id us m.quota_windows) ≡ some us =
                found ∙ rw e refl in
              subst Holds (sym own_entry) (
                subst (λ (t : String). WindowAgrees r.now (after log r) t us)
                  ((eq_iff r.subject_id s).0 e) own)
          | inr e ↦
              let same_entry : lookup s (insert r.subject_id us m.quota_windows)
                  ≡ lookup s m.quota_windows =
                found ∙ rw e refl in
              subst Holds (sym same_entry)
                (window_other (admits log r) last log r s (window_of s m.quota_windows) e le other)
        ]

rows_run :
    (m : ApiKeyManager) (last : ℕ) (log : List QuotaEvent) (rs : List Request)
    → RowsManager m last log
    → InOrder last rs
    → decisions m rs ≡ promised log rs
unfolding promised
rows_run m last log [] h o = refl
rows_run m last log (r ∷ rs) h (le, o) =
    let (allowed, next) = rows_step m last log r h le in
    let m1 = (consume_subject_quota healthy m r.subject_id r.limit r.now).0 in
    ap (λ (b : Bool). b ∷ decisions m1 rs) allowed
    ∙ ap (λ (bs : List Bool). admits log r ∷ bs) (rows_run m1 r.now (after log r) rs next o)

window_run :
    (m : ApiKeyManager) (last : ℕ) (log : List QuotaEvent) (rs : List Request)
    → WindowManager m last log
    → InOrder last rs
    → decisions m rs ≡ promised log rs
unfolding promised
window_run m last log [] h o = refl
window_run m last log (r ∷ rs) h (le, o) =
    let (allowed, next) = window_step m last log r h le in
    let m1 = (consume_subject_quota healthy m r.subject_id r.limit r.now).0 in
    ap (λ (b : Bool). b ∷ decisions m1 rs) allowed
    ∙ ap (λ (bs : List Bool). admits log r ∷ bs) (window_run m1 r.now (after log r) rs next o)

-- A new manager decides every sequence of requests as the log of admissions does, both in memory
-- and on a database without quota events whose calls succeed, while the clock does not run
-- backwards: a request passes if and only if its subject passed fewer than the limit of the request
-- times in the last minute.
pub decisions-promised :
    (db : AuthDb) (rs : List Request)
    → db.quota_events ≡ []
    → InOrder 0 rs
    → (decisions (new none) rs ≡ promised [] rs) × (decisions (new (some db)) rs ≡ promised [] rs)
unfolding new lookup
decisions-promised db rs h o = (
  window_run (new none) 0 [] rs (refl, λ s. (tt, tt, λ now k. refl)) o,
  rows_run (new (some db)) 0 [] rs
      (db, refl, λ s now k. ap (λ (rows : List QuotaEvent). recent s now rows) h) o,
)
