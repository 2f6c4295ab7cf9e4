-- ===== src/RateLimit/WindowLaws.antt =====
-- What the sliding window of one client address admits, over every sequence of requests.
use easy_bot.Base.{
  ℕ, zero, suc, ◌+◌, ◌-◌, ◌≤◌, ◌<◌, ◌≡◌, refl, sym, ap, ◌∙◌, inl, inr, Bool, true, ◌&&◌, List, [],
  ◌∷◌, ◌++◌, arith, leb, if◌then◌else◌, Bool-cases, length, count, count-append, count-le-length,
  replicate, Ascends,
}
use easy_bot.RateLimit.Window.{
  SlidingWindow, window_ms, with_config, prune, since, burst_count, check_and_record,
}

-- Requests at the given times, one after the other; the second part holds the times of those that
-- were admitted.
unfoldable pub serve : SlidingWindow → ℕ → ℕ → List ℕ → SlidingWindow × List ℕ
serve w max_requests burst [] = (w, [])
serve w max_requests burst (now ∷ times) =
    let (w', allowed) = check_and_record w max_requests burst now in
    let (final, admitted) = serve w' max_requests burst times in
    (final, if allowed then now ∷ admitted else admitted)

-- `t` lies in the closed minute that starts at `s`.
abbrev pub within : ℕ → ℕ → Bool
within s t = leb s t && leb t (s + window_ms)

-- Pruning drops nothing that a later window still counts.
count-prune :
    (ts : List ℕ) (start s : ℕ) → start ≤ s → count (since s) (prune ts start) ≡ count (since s) ts
unfolding prune
count-prune [] start s h = refl
count-prune (t ∷ ts) start s h = ground (arith, count-prune ts start s h)

count-within-le-since : (s : ℕ) (ts : List ℕ) → count (within s) ts ≤ count (since s) ts
count-within-le-since s [] = omega arith
count-within-le-since s (t ∷ ts) = ground (arith, count-within-le-since s ts)

-- What `past` and the window agree on after the request at `last`: the window counts every later
-- start rightly, and no minute is overfull.
record Tracks (w : SlidingWindow) (max_requests last : ℕ) (past : List ℕ) : Type 0 where
  agree : (s : ℕ) → last - window_ms ≤ s → count (since s) past ≡ count (since s) w.timestamps
  bound : (s : ℕ) → count (within s) past ≤ max_requests

refuse-Tracks :
    (w : SlidingWindow) (m last now : ℕ) (past : List ℕ)
    → Tracks w m last past
    → last ≤ now
    → Tracks
        (record { timestamps = prune w.timestamps (now - window_ms); last_access = now })
        m
        now
        past
refuse-Tracks w m last now past t le = record {
  agree = λ s h. t.agree s (omega arith) ∙ sym (count-prune w.timestamps (now - window_ms) s h);
  bound = t.bound;
}

admit-Tracks :
    (w : SlidingWindow) (m last now : ℕ) (past : List ℕ)
    → Tracks w m last past
    → last ≤ now
    → length (prune w.timestamps (now - window_ms)) < m
    → Tracks
        (record {
          timestamps = prune w.timestamps (now - window_ms) ++ now ∷ [];
          last_access = now;
        })
        m
        now
        (past ++ now ∷ [])
admit-Tracks w m last now past t le room =
    let kept = prune w.timestamps (now - window_ms) in
    record {
      agree = λ s h.
          count-append (since s) past (now ∷ [])
          ∙ ap (λ k. k + count (since s) (now ∷ []))
              (t.agree s (omega arith) ∙ sym (count-prune w.timestamps (now - window_ms) s h))
          ∙ sym (count-append (since s) kept (now ∷ []));
      bound = λ s. within_bound s;
    }
  where
    within_bound : (s : ℕ) → count (within s) (past ++ now ∷ []) ≤ m
    within_bound s = elim (Bool-cases (within s now)) [
      | inl e ↦ ground (
        arith,
        count-append (within s) past (now ∷ []),
        t.agree s (ground arith),
        count-prune w.timestamps (now - window_ms) s (ground arith),
        count-within-le-since s past,
        count-le-length (since s) (prune w.timestamps (now - window_ms)),
      )
      | inr e ↦ ground (arith, count-append (within s) past (now ∷ []), t.bound s)
    ]

serve-bound :
    (w : SlidingWindow) (m last : ℕ) (past times : List ℕ)
    → Tracks w m last past
    → Ascends last times
    → (s : ℕ) → count (within s) past + count (within s) (serve w m 0 times).1 ≤ m
unfolding serve check_and_record
serve-bound w m last past [] t asc s = omega (arith, t.bound s)
serve-bound w m last past (now ∷ times) t (le, asc) s =
    let kept = prune w.timestamps (now - window_ms) in
    elim (Bool-cases (leb m (length (prune w.timestamps (now - window_ms))))) [
      | inl full ↦ ground (
        arith,
        full,
        serve-bound (record { timestamps = kept; last_access = now }) m now past times
            (refuse-Tracks w m last now past t le) asc s,
      )
      | inr room ↦ ground (
        arith,
        room,
        count-append (within s) past (now ∷ []),
        serve-bound (record { timestamps = kept ++ now ∷ []; last_access = now }) m now
            (past ++ now ∷ []) times (admit-Tracks w m last now past t le (ground arith)) asc s,
      )
    ]

-- With no burst allowance, a new window admits at most `max_requests` requests in any minute,
-- whatever the times of the requests, provided that they do not run backwards.
pub serve-within-le-max :
    (created max_requests : ℕ) (times : List ℕ) (s : ℕ)
    → Ascends created times
    → count (within s) (serve (with_config created) max_requests 0 times).1 ≤ max_requests
unfolding with_config
serve-within-le-max created m times s asc = omega (
  arith,
  serve-bound (with_config created) m created [] times
      (record { agree = λ s h. refl; bound = λ s. omega arith }) asc s,
)

-- A window at its limit whose last second has room for a burst is left as it is by a request.
saturated-check :
    (w : SlidingWindow) (m burst now : ℕ)
    → m ≤ length w.timestamps
    → prune w.timestamps (now - window_ms) ≡ w.timestamps
    → burst_count w.timestamps now < burst
    → check_and_record w m burst now ≡ (record w { last_access = now }, true)
unfolding check_and_record
saturated-check w m burst now full kept room = rw kept (ground arith)

-- A window that is at its limit, with fewer than `burst` recorded requests in the last second,
-- admits every one of any number of requests at that moment.
pub serve-saturated :
    (w : SlidingWindow) (m burst now n : ℕ)
    → m ≤ length w.timestamps
    → prune w.timestamps (now - window_ms) ≡ w.timestamps
    → burst_count w.timestamps now < burst
    → (serve w m burst (replicate n now)).1 ≡ replicate n now
unfolding serve
serve-saturated w m burst now zero full kept room = refl
serve-saturated w m burst now (suc n) full kept room =
    rw (saturated-check w m burst now full kept room) (
      ap (λ (l : List ℕ). now ∷ l)
        (serve-saturated (record w { last_access = now }) m burst now n full kept room))
