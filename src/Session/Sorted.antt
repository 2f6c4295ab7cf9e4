-- ===== src/Session/Sorted.antt =====
-- crates/easybot-core/src/session/manager.rs: the order and the pages of a listing.
use easy_bot.Base.{
  ℕ, zero, suc, ◌-◌, ◌*◌, ◌≤◌, ◌≡◌, refl, ◌∙◌, inl, inr, String, Bool, Option, none, some, List, [],
  ◌∷◌, map, leb, leb→le, leb-false, str_eq, count, retain, take, drop, All, All-mono, All-retain,
  arith, Bool-cases,
}
use easy_bot.Session.Types.{Session, SessionFilter}
use easy_bot.Session.Manager.{SessionManager}
use easy_bot.Session.Listing.{place, sorted, of_platform, active_since, limited, skipped, list}

module _ {M : Type 0} where
  -- No session was updated later than one before it.
  abbrev pub IsSorted : List (Session M) → Type 0
  IsSorted [] = Unit
  IsSorted (s ∷ ss) = All (λ t. t.updated_at ≤ s.updated_at) ss × IsSorted ss

  All-place :
      (P : Session M → Type 0) (s : Session M) (ss : List (Session M))
      → P s
      → All P ss
      → All P (place s ss)
  unfolding place
  All-place P s [] p h = (p, tt)
  All-place P s (t ∷ ts) p (q, h) = elim (Bool-cases (leb t.updated_at s.updated_at)) [
    | inl e ↦ rw (e, place) (p, (q, h))
    | inr e ↦ rw (e, place) (q, All-place P s ts p h)
  ]

  place-IsSorted : (s : Session M) (ss : List (Session M)) → IsSorted ss → IsSorted (place s ss)
  unfolding place
  place-IsSorted s [] h = (tt, tt)
  place-IsSorted s (t ∷ ts) (q, h) = elim (Bool-cases (leb t.updated_at s.updated_at)) [
    | inl e ↦
        let le : t.updated_at ≤ s.updated_at = leb→le t.updated_at s.updated_at e in
        rw (e, place)
          (
            (
              le,
              All-mono (λ (u : Session M). u.updated_at ≤ t.updated_at)
                  (λ (u : Session M). u.updated_at ≤ s.updated_at) ts (λ u k. omega (arith, k, le))
                  q,
            ),
            (q, h),
          )
    | inr e ↦
        rw (e, place)
          (
            All-place (λ (u : Session M). u.updated_at ≤ t.updated_at) s ts
                (leb-false t.updated_at s.updated_at e) q,
            place-IsSorted s ts h,
          )
  ]

  sorted-IsSorted : (ss : List (Session M)) → IsSorted (sorted ss)
  unfolding sorted
  sorted-IsSorted [] = tt
  sorted-IsSorted (s ∷ ss) = place-IsSorted s (sorted ss) (sorted-IsSorted ss)

  retain-IsSorted :
      (p : Session M → Bool) (ss : List (Session M)) → IsSorted ss → IsSorted (retain p ss)
  retain-IsSorted p [] h = tt
  retain-IsSorted p (s ∷ ss) (q, h) = elim (Bool-cases (p s)) [
    | inl e ↦
        rw e (
          All-retain (λ (t : Session M). t.updated_at ≤ s.updated_at) p ss q,
          retain-IsSorted p ss h,
        )
    | inr e ↦ rw e (retain-IsSorted p ss h)
  ]

  All-take : (P : Session M → Type 0) (n : ℕ) (ss : List (Session M)) → All P ss → All P (take n ss)
  All-take P zero ss h = tt
  All-take P (suc n) [] h = tt
  All-take P (suc n) (s ∷ ss) (q, h) = (q, All-take P n ss h)

  take-IsSorted : (n : ℕ) (ss : List (Session M)) → IsSorted ss → IsSorted (take n ss)
  take-IsSorted zero ss h = tt
  take-IsSorted (suc n) [] h = tt
  take-IsSorted (suc n) (s ∷ ss) (q, h) =
      (All-take (λ (t : Session M). t.updated_at ≤ s.updated_at) n ss q, take-IsSorted n ss h)

  drop-IsSorted : (n : ℕ) (ss : List (Session M)) → IsSorted ss → IsSorted (drop n ss)
  drop-IsSorted zero ss h = h
  drop-IsSorted (suc n) [] h = tt
  drop-IsSorted (suc n) (s ∷ ss) (q, h) = drop-IsSorted n ss h

  count-place :
      (p : Session M → Bool) (s : Session M) (ss : List (Session M))
      → count p (place s ss) ≡ count p (s ∷ ss)
  unfolding place
  count-place p s [] = refl
  count-place p s (t ∷ ts) = ground (arith, count-place p s ts)

  count-sorted : (p : Session M → Bool) (ss : List (Session M)) → count p (sorted ss) ≡ count p ss
  unfolding sorted
  count-sorted p [] = refl
  count-sorted p (s ∷ ss) = count-place p s (sorted ss) ∙ ground (arith, count-sorted p ss)

  platform-IsSorted :
      (o : Option String) (ss : List (Session M)) → IsSorted ss → IsSorted (of_platform o ss)
  platform-IsSorted none ss h = h
  platform-IsSorted (some p) ss h = retain-IsSorted (λ s. str_eq s.platform p) ss h

  active-IsSorted :
      (o : Option ℕ) (now : ℕ) (ss : List (Session M))
      → IsSorted ss
      → IsSorted (active_since o now ss)
  active-IsSorted none now ss h = h
  active-IsSorted (some n) now ss h =
      retain-IsSorted (λ s. leb (now - n * 60 * 1000) s.updated_at) ss h

  limited-IsSorted : (o : Option ℕ) (ss : List (Session M)) → IsSorted ss → IsSorted (limited o ss)
  limited-IsSorted none ss h = h
  limited-IsSorted (some n) ss h = take-IsSorted n ss h

  skipped-IsSorted : (o : Option ℕ) (ss : List (Session M)) → IsSorted ss → IsSorted (skipped o ss)
  skipped-IsSorted none ss h = h
  skipped-IsSorted (some n) ss h = drop-IsSorted n ss h

  -- A listing is sorted, the latest update first, under every filter; without a filter it holds
  -- every session as often as the memory does.
  pub list-IsSorted :
      (m : SessionManager M) (f : SessionFilter) (now : ℕ) (p : Session M → Bool)
      → IsSorted (list m (some f) now)
        × IsSorted (list m none now)
        × (count p (list m none now) ≡ count p (map (λ (e : String × Session M). e.1) m.sessions))
  unfolding list
  list-IsSorted m f now p =
      let all_of_them = map (λ (e : String × Session M). e.1) m.sessions in
      let platform =
        platform-IsSorted f.platform (sorted all_of_them) (sorted-IsSorted all_of_them) in
      (
        skipped-IsSorted f.offset _
            (limited-IsSorted f.limit _ (active-IsSorted f.active_within_minutes now _ platform)),
        sorted-IsSorted all_of_them,
        count-sorted p all_of_them,
      )

  drop-take :
      (limit offset : ℕ) (ss : List (Session M)) → limit ≤ offset → drop offset (take limit ss) ≡ []
  drop-take zero zero ss h = refl
  drop-take zero (suc n) ss h = refl
  drop-take (suc m) zero ss h = absurd (omega (arith, h))
  drop-take (suc m) (suc n) [] h = refl
  drop-take (suc m) (suc n) (s ∷ ss) h = drop-take m n ss (omega (arith, h))

  -- A page that begins at or behind the limit is empty, however many sessions there are: the
  -- listing is cut to its limit before the offset is skipped.
  pub list_page_empty :
      (m : SessionManager M) (f : SessionFilter) (limit offset now : ℕ)
      → f.limit ≡ some limit
      → f.offset ≡ some offset
      → limit ≤ offset
      → list m (some f) now ≡ []
  unfolding list
  list_page_empty m f limit offset now h k l = rw (h, k, list) (drop-take limit offset _ l)
