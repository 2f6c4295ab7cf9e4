-- ===== src/RateLimit/LimiterLaws.antt =====
-- The rate limiter as a whole: its memory is bounded, an address does not disturb the others, and
-- what a clean-up keeps.
use easy_bot.Base.{
  ℕ, zero, suc, ◌+◌, ◌-◌, ◌≤◌, ◌<◌, ◌≡◌, refl, ◌≢◌, ◌⊎◌, inl, inr, String, Bool, true, false,
  Option, none, some, [], ◌∷◌, arith, Bool-cases, Option-cases, length, take, retain, lookup,
  insert, remove, contains_key, lookup-insert, lookup-remove, length-insert, length-remove-lt,
  eq_iff, All, All-mono, retain-holds, ltb, leb, not, ◌&&◌,
}
use easy_bot.RateLimit.Window.{SlidingWindow, check_and_record}
use easy_bot.RateLimit.Limiter.{
  RateLimiter, Buckets, max_buckets, i64_max, oldest, make_room, window_of, enter, check, stays,
  cleanup,
}

abbrev pub IsBounded : Buckets → Type 0
IsBounded b = length b ≤ max_buckets

contains_key-take :
    (n : ℕ) (k : String) (b : Buckets) → contains_key k (take n b) ≡ true → contains_key k b ≡ true
unfolding contains_key
contains_key-take zero k b h = absurd (cc h)
contains_key-take (suc n) k [] h = absurd (cc h)
contains_key-take (suc n) k ((j, w) ∷ b) h = ground (arith, contains_key-take n k b)

lookup-enter :
    (l : RateLimiter) (b : Buckets) (ip j : String) (now : ℕ)
    → ip ≢ j
    → lookup j (enter l b ip now).0.buckets ≡ lookup j b
unfolding enter
lookup-enter l b ip j now ne = ground (
  arith,
  eq_iff ip j,
  lookup-insert ip j
      (check_and_record (window_of (lookup ip b) now) l.config.requests_per_minute
        l.config.burst_size now).0
      b,
)

module _ (locked : String → Bool) where
  -- The search names a sampled address, or what it was started with.
  oldest_cases :
      (b : Buckets) (time : ℕ) (start : Option String) {key : String}
      → oldest locked b time start ≡ some key
      → (start ≡ some key) ⊎ (contains_key key b ≡ true)
  unfolding oldest contains_key
  oldest_cases [] time start e = inl e
  oldest_cases ((j, w) ∷ b) time start {key} e =
      elim (Bool-cases (not (locked j) && ltb w.last_access time)) [
        | inl newer ↦ ground (
          arith,
          eq_iff j key,
          oldest_cases b w.last_access (some j) {key = key} (ground (arith, newer)),
        )
        | inr older ↦ ground (arith, oldest_cases b time start {key = key} (ground (arith, older)))
      ]

  -- Once room is made, entering the address keeps the number of addresses within its limit.
  make_room-length :
      (b : Buckets) (ip : String) (w : SlidingWindow) {b' : Buckets}
      → IsBounded b
      → make_room locked b ip ≡ some b'
      → IsBounded (insert ip w b')
  unfolding make_room
  make_room-length b ip w {b'} h e =
      elim (Bool-cases (leb max_buckets (length b) && not (contains_key ip b))) [
        | inl full ↦ elim (Option-cases (oldest locked (take 20 b) i64_max none)) [
          | inl none_free ↦ absurd (cc (rw (full, none_free, make_room) at e))
          | inr (key, found) ↦ ground (
            arith,
            rw (full, found, make_room) at e,
            length-insert ip w (remove key b),
            length-remove-lt key b (sampled key found),
          )
        ]
        | inr space ↦ ground (arith, length-insert ip w b)
      ]
    where
      sampled :
          (key : String)
          → oldest locked (take 20 b) i64_max none ≡ some key
          → contains_key key b ≡ true
      sampled key found = elim (oldest_cases (take 20 b) i64_max none found) [
        | inl never ↦ absurd (cc never)
        | inr held ↦ contains_key-take 20 key b held
      ]

  -- No request that is checked in one step, from whatever address, takes the number of tracked
  -- addresses over the limit.
  pub check-IsBounded :
      (l : RateLimiter) (ip : String) (now : ℕ)
      → IsBounded l.buckets
      → IsBounded (check locked l ip now).0.buckets
  unfolding check enter
  check-IsBounded l ip now h = elim (Option-cases (make_room locked l.buckets ip)) [
    | inl e ↦ ground (arith, e)
    | inr (b, e) ↦ ground (
      arith,
      e,
      make_room-length l.buckets ip
          (check_and_record (window_of (lookup ip b) now) l.config.requests_per_minute
            l.config.burst_size now).0
          h e,
    )
  ]

  make_room_cases :
      (b b' : Buckets) (ip : String)
      → make_room locked b ip ≡ some b'
      → (b' ≡ b)
        ⊎ ((key : String) × (max_buckets ≤ length b)
            × (contains_key ip b ≡ false)
            × (b' ≡ remove key b))
  unfolding make_room
  make_room_cases b b' ip e = elim (Option-cases (oldest locked (take 20 b) i64_max none)) [
    | inl none_free ↦ ground (arith, none_free)
    | inr (key, found) ↦ elim (Bool-cases (leb max_buckets (length b) && not (contains_key ip b))) [
      | inl full ↦
          inr (key, ground (arith, full), ground (arith, full), ground (arith, full, found))
      | inr space ↦ inl (ground (arith, space))
    ]
  ]

  -- A request leaves the window of every other address as it was, except that a request from an
  -- address that is not tracked, when the limit on addresses is reached, may drop one other window.
  pub check-other :
      (l : RateLimiter) (ip j : String) (now : ℕ)
      → ip ≢ j
      → (lookup j (check locked l ip now).0.buckets ≡ lookup j l.buckets)
        ⊎ ((max_buckets ≤ length l.buckets)
            × (contains_key ip l.buckets ≡ false)
            × (lookup j (check locked l ip now).0.buckets ≡ none))
  unfolding check enter
  check-other l ip j now ne = elim (Option-cases (make_room locked l.buckets ip)) [
    | inl e ↦ inl (ground (arith, e))
    | inr (b, e) ↦ elim (make_room_cases l.buckets b ip e) [
      | inl same ↦ inl (ground (arith, e, same, lookup-enter l b ip j now ne))
      | inr (key, full, unknown, removed) ↦ ground (
        arith,
        e,
        full,
        unknown,
        removed,
        lookup-enter l b ip j now ne,
        lookup-remove key j l.buckets,
      )
    ]
  ]

  -- An address that is tracked, or that comes before the limit on addresses is reached, is
  -- answered by its own window, new if there is none, and that window is what is kept for it.
  pub check-own :
      (l : RateLimiter) (ip : String) (now : ℕ)
      → l.config.enabled ≡ true
      → (contains_key ip l.buckets ≡ true) ⊎ (length l.buckets < max_buckets)
      → let (w, allowed) =
          check_and_record
            (window_of (lookup ip l.buckets) now)
            l.config.requests_per_minute
            l.config.burst_size
            now in
        ((check locked l ip now).1 ≡ allowed)
        × (lookup ip (check locked l ip now).0.buckets ≡ some w)
  unfolding check enter make_room
  check-own l ip now on room = ground (
    arith,
    eq_iff ip ip,
    lookup-insert ip ip
        (check_and_record (window_of (lookup ip l.buckets) now) l.config.requests_per_minute
          l.config.burst_size now).0
        l.buckets,
  )

  oldest-locked :
      (b : Buckets) (time : ℕ) → All (λ e. locked e.0 ≡ true) b → oldest locked b time none ≡ none
  unfolding oldest
  oldest-locked [] time h = refl
  oldest-locked ((key, w) ∷ b) time (held, h) = rw held (oldest-locked b time h)

  -- When the limit on addresses is reached and every sampled window is in use, a new address is
  -- denied and the limiter keeps its state.
  pub check-denied :
      (l : RateLimiter) (ip : String) (now : ℕ)
      → l.config.enabled ≡ true
      → max_buckets ≤ length l.buckets
      → contains_key ip l.buckets ≡ false
      → All (λ e. locked e.0 ≡ true) (take 20 l.buckets)
      → check locked l ip now ≡ (l, false)
  unfolding check make_room
  check-denied l ip now on full unknown held =
      ground (arith, oldest-locked (take 20 l.buckets) i64_max held)

  -- The window is in use, or was used in the last five minutes.
  abbrev pub IsLive : ℕ → String × SlidingWindow → Type 0
  IsLive now (key, w) = (locked key ≡ true) ⊎ (now ≤ w.last_access + 300_000)

  stays-IsLive :
      (now : ℕ) (e : String × SlidingWindow) → stays locked (now - 300_000) e ≡ true → IsLive now e
  stays-IsLive now (key, w) h = ground arith

  retain-lookup :
      (cutoff : ℕ) (key : String) (w : SlidingWindow) (b : Buckets)
      → lookup key b ≡ some w
      → stays locked cutoff (key, w) ≡ true
      → lookup key (retain (stays locked cutoff) b) ≡ some w
  unfolding lookup
  retain-lookup cutoff key w [] e h = absurd (cc e)
  retain-lookup cutoff key w ((j, v) ∷ b) e h =
      ground (arith, eq_iff j key, retain-lookup cutoff key w b)

  -- A clean-up keeps every window that is in use or was used in the last five minutes, and nothing
  -- else.
  pub cleanup_exact :
      (l : RateLimiter) (now : ℕ)
      → All (IsLive now) (cleanup locked l now).buckets
        × ((key : String) (w : SlidingWindow)
            → lookup key l.buckets ≡ some w
            → IsLive now (key, w)
            → lookup key (cleanup locked l now).buckets ≡ some w)
  unfolding cleanup
  cleanup_exact l now = (
    All-mono _ _ _ (λ e h. stays-IsLive now e h) (retain-holds _ l.buckets),
    λ key w e h. retain-lookup (now - 300_000) key w l.buckets e (ground arith),
  )
