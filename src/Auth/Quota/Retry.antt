-- ===== src/Auth/Quota/Retry.antt =====
-- What the delay of a refused request is worth.
use easy_bot.Base.{
  ℕ, ◌+◌, ◌-◌, ◌*◌, ◌/◌, ◌≤◌, ◌<◌, max, ◌≡◌, refl, true, false, List, [], ◌∷◌, leb, length, arith,
  Bool-cases, All, inl, inr, String, count,
}
use easy_bot.Auth.Types.{QuotaEvent, ok}
use easy_bot.Auth.Quota.{
  QuotaConsumption, of_subject, pop_old, seconds_left, consume_rows, consume_window,
}
use easy_bot.Auth.Quota.Stores.{healthy}
use easy_bot.Auth.Quota.Delay.{refused_rows-retry}
use easy_bot.Auth.Quota.Log.{pop-All}

length-pop-le : (now : ℕ) (ts : List ℕ) → length (pop_old now ts) ≤ length ts
length-pop-le now [] = omega arith
length-pop-le now (t ∷ ts) = ground (arith, length-pop-le now ts)

-- After the delay that a window tells for its oldest request, that request is old.
delay_enough :
    (now later t : ℕ)
    → t ≤ now
    → now + max (60 - (now - t) / 1000) 1 * 1000 ≤ later
    → leb 60 ((later - t) / 1000) ≡ true
delay_enough now later t le wait = ground (arith, le, wait)

later_allowed :
    (kept : List ℕ) (limit now later : ℕ)
    → 0 < limit
    → length kept ≤ limit
    → leb limit (length kept) ≡ true
    → All (λ t. t ≤ now) kept
    → now + seconds_left now kept * 1000 ≤ later
    → (consume_window kept limit later).1.allowed ≡ true
unfolding consume_window
later_allowed [] limit now later pos small full old wait = absurd (ground (arith, pos, full))
later_allowed (t ∷ ts) limit now later pos small full (le, old) wait =
    let gone : leb 60 ((later - t) / 1000) ≡ true = delay_enough now later t le wait in
    let room : leb limit (length (pop_old later ts)) ≡ false =
      ground (arith, length-pop-le later ts, small) in
    rw (gone, consume_window) (rw room refl)

-- The window in memory: a refused subject is admitted when the delay that it was told has passed.
refused_window-retry :
    (ts : List ℕ) (limit now later : ℕ)
    → (consume_window ts limit now).1.allowed ≡ false
    → 0 < limit
    → length ts ≤ limit
    → All (λ t. t ≤ now) ts
    → now + (consume_window ts limit now).1.retry_after_secs * 1000 ≤ later
    → (consume_window (consume_window ts limit now).0 limit later).1.allowed ≡ true
unfolding consume_window
refused_window-retry ts limit now later refused pos small old wait =
    elim (Bool-cases (leb limit (length (pop_old now ts)))) [
      | inr e ↦ absurd (cc (rw (e, consume_window) at refused))
      | inl e ↦
          rw (e, consume_window)
            (later_allowed (pop_old now ts) limit now later pos
              (omega (arith, length-pop-le now ts, small)) e (pop-All (λ t. t ≤ now) now ts old)
              (rw (e, consume_window) at wait))
    ]

-- If the rows of a database without faults and a window in memory both refuse a subject, with a
-- limit that is not 0 and no more requests on record than the limit, those of the window not from
-- the future, each admits the next request, if that comes when the delays that they told have passed.
pub refused-retry :
    (rows kept : List QuotaEvent) (decision : QuotaConsumption) (subject : String) (ts : List ℕ)
    (limit now later : ℕ)
    → 0 < limit
    → consume_rows healthy rows subject limit now ≡ ok (kept, decision)
    → decision.allowed ≡ false
    → count (of_subject subject) rows ≤ limit
    → now + decision.retry_after_secs * 1000 ≤ later
    → (consume_window ts limit now).1.allowed ≡ false
    → length ts ≤ limit
    → All (λ t. t ≤ now) ts
    → now + (consume_window ts limit now).1.retry_after_secs * 1000 ≤ later
    → ((r : List QuotaEvent × QuotaConsumption) × (consume_rows healthy kept subject limit later
          ≡ ok r)
        × (r.1.allowed ≡ true))
      × ((consume_window (consume_window ts limit now).0 limit later).1.allowed ≡ true)
refused-retry rows kept decision subject ts limit now later pos h denied few wait refused small old
      told =
    (
      refused_rows-retry rows kept decision subject limit now later h denied pos few wait,
      refused_window-retry ts limit now later refused pos small old told,
    )
