-- ===== src/Auth/Idempotency/Replay.antt =====
-- crates/easybot-core/src/auth/api_key/billing.rs: what a second request with the same keys is told.
use easy_bot.Base.{
  ℕ, ◌+◌, ◌<◌, ◌≡◌, ◌≢◌, refl, sym, ap, ◌∙◌, subst, inl, inr, String, Bool, true, false, none, some,
  List, [], ◌∷◌, ◌++◌, map, if◌then◌else◌, find, str_eq, eq_iff, arith, Bool-cases, Option-cases,
  find-append_end,
}
use easy_bot.Auth.Idempotency.{
  IdempotencyRow, pending, completed, acquired, replay, IdempotencyStep, begin, purge, insert_row,
  commit, select_row, ok, lifetime_ms, has_keys, is_pending, reservation_of, purged,
  reserve_idempotency, is_open, completes, complete_idempotency,
}
use easy_bot.Auth.Idempotency.Once.{
  find-map, Keeps, Stable, purged-Keeps, Call, run, Before, run-Keeps,
}

abbrev pub healthy : IdempotencyStep → Bool
healthy step = false

abbrev pub pending_row : String → String → String → ℕ → IdempotencyRow
pending_row k i h now = record {
  key_id = k;
  idempotency_key = i;
  request_hash = h;
  state = pending;
  http_status = none;
  response_json = none;
  created_at = now;
  expires_at = now + lifetime_ms;
}

not-acquired : (r : IdempotencyRow) (h : String) → reservation_of r h ≢ acquired
not-acquired r h e = elim (Bool-cases (str_eq r.request_hash h)) [
  | inl a ↦ elim (Bool-cases (is_pending r.state)) [
    | inl b ↦ absurd (cc (rw (a, b) at e))
    | inr b ↦ absurd (cc (rw (a, b) at e))
  ]
  | inr a ↦ absurd (cc (rw a at e))
]

ok-inj : {T : Type 0} {x y : T} → ok x ≡ ok y → x ≡ y
ok-inj h = cc h

-- A reservation that is acquired found no row, and adds one.
reserve-acquired :
    (fault : IdempotencyStep → Bool) (rows : List IdempotencyRow) (k i h : String) (now : ℕ)
    → (reserve_idempotency fault rows k i h now).1 ≡ ok acquired
    → (find (has_keys k i) (purged now rows) ≡ none)
      × ((reserve_idempotency fault rows k i h now).0
          ≡ purged now rows ++ pending_row k i h now ∷ [])
unfolding reserve_idempotency
reserve-acquired fault rows k i h now e = elim (Bool-cases (fault begin)) [
  | inl a ↦ absurd (cc (rw (a, reserve_idempotency) at e))
  | inr a ↦ elim (Bool-cases (fault purge)) [
    | inl b ↦ absurd (cc (rw (a, b, reserve_idempotency) at e))
    | inr b ↦ elim (Bool-cases (fault insert_row)) [
      | inl c ↦ absurd (cc (rw (a, b, c, reserve_idempotency) at e))
      | inr c ↦ elim (Option-cases (find (has_keys k i) (purged now rows))) [
        | inl f ↦ elim (Bool-cases (fault commit)) [
          | inl d ↦ absurd (cc (rw (a, b, c, f, d, reserve_idempotency) at e))
          | inr d ↦ rw (a, b, c, f, d, reserve_idempotency) (refl, refl)
        ]
        | inr (r, f) ↦ elim (Bool-cases (fault select_row)) [
          | inl g ↦ absurd (cc (rw (a, b, c, f, g, reserve_idempotency) at e))
          | inr g ↦ elim (Bool-cases (fault commit)) [
            | inl d ↦ absurd (cc (rw (a, b, c, f, g, d, reserve_idempotency) at e))
            | inr d ↦
                absurd (not-acquired r h (ok-inj (rw (a, b, c, f, g, d, reserve_idempotency) at e)))
          ]
        ]
      ]
    ]
  ]
]

abbrev HasHash : String → IdempotencyRow → Type 0
HasHash h r = r.request_hash ≡ h

acquired-Keeps :
    (fault : IdempotencyStep → Bool) (rows : List IdempotencyRow) (k i h : String) (now : ℕ)
    → (reserve_idempotency fault rows k i h now).1 ≡ ok acquired
    → Keeps (HasHash h) k i (now + lifetime_ms) (reserve_idempotency fault rows k i h now).0
acquired-Keeps fault rows k i h now e =
    let (free, added) = reserve-acquired fault rows k i h now e in
    let own : has_keys k i (pending_row k i h now) ≡ true =
      rw ((eq_iff k k).1 refl, (eq_iff i i).1 refl) refl in
    subst (Keeps (HasHash h) k i (now + lifetime_ms)) (sym added) (record {
      row = pending_row k i h now;
      found = find-append_end (has_keys k i) (purged now rows) (pending_row k i h now) free own;
      expires = refl;
      holds = refl;
    })

-- A request that acquired its keys is not acquired again, by a request with any contents: not after
-- any reservations and completions with any failures, as long as all of it happens within a day of
-- the first reservation.
pub reserved-once :
    (fault fault' : IdempotencyStep → Bool) (rows : List IdempotencyRow) (k i h h' : String)
    (now later : ℕ) (cs : List Call)
    → (reserve_idempotency fault rows k i h now).1 ≡ ok acquired
    → Before (now + lifetime_ms) cs
    → later < now + lifetime_ms
    → (reserve_idempotency fault'
        (run (reserve_idempotency fault rows k i h now).0 cs)
        k
        i
        h'
        later).1
      ≢ ok acquired
reserved-once fault fault' rows k i h h' now later cs e b le again =
    let rows' = run (reserve_idempotency fault rows k i h now).0 cs in
    let kept =
      run-Keeps (HasHash h) k i (now + lifetime_ms) (reserve_idempotency fault rows k i h now).0 cs
        (λ r k' i' h'' status json q. ground (arith, q)) b
        (acquired-Keeps fault rows k i h now e) in
    let (free, _) = reserve-acquired fault' rows' k i h' later again in
    let there = purged-Keeps (HasHash h) k i (now + lifetime_ms) rows' later le kept in
    absurd (cc (sym free ∙ there.found))

-- A row that was completed with an answer.
abbrev Done : String → ℕ → String → IdempotencyRow → Type 0
Done h status json r =
    (r.state ≡ completed)
    × (r.request_hash ≡ h)
    × (r.http_status ≡ some status)
    × (r.response_json ≡ some json)

Done-Stable : (h : String) (status : ℕ) (json : String) → Stable (Done h status json)
Done-Stable h status json r k i h' status' json' (s, q, q', q'') =
    let closed : is_open k i h' r ≡ false = ground (arith, s) in rw closed (s, q, q', q'')

asked_again :
    (rows : List IdempotencyRow) (r : IdempotencyRow) (k i h : String) (now : ℕ)
    → find (has_keys k i) (purged now rows) ≡ some r
    → (reserve_idempotency healthy rows k i h now).1 ≡ ok (reservation_of r h)
unfolding reserve_idempotency
asked_again rows r k i h now f = rw (f, reserve_idempotency) refl

replayed :
    (r : IdempotencyRow) (h : String) (status : ℕ) (json : String)
    → r.state ≡ completed
    → r.request_hash ≡ h
    → r.http_status ≡ some status
    → r.response_json ≡ some json
    → reservation_of r h ≡ replay status json
replayed r h status json s g t u = rw (s, (eq_iff r.request_hash h).1 g, t, u) refl

-- A request whose answer was recorded is answered the same way from then on, until it expires:
-- after any reservations and completions with any failures, a reservation with the same keys and
-- contents replays the status and the body.
pub completed-replayed :
    (rows : List IdempotencyRow) (r : IdempotencyRow) (k i h : String) (status : ℕ) (json : String)
    (later : ℕ) (cs : List Call)
    → find (has_keys k i) rows ≡ some r
    → is_open k i h r ≡ true
    → Before r.expires_at cs
    → later < r.expires_at
    → (reserve_idempotency healthy
        (run (complete_idempotency healthy rows k i h status json).0 cs)
        k
        i
        h
        later).1
      ≡ ok (replay status json)
unfolding complete_idempotency
completed-replayed rows r k i h status json later cs found opens b le =
    let f : IdempotencyRow → IdempotencyRow =
      λ x. if is_open k i h x then completes status json x else x in
    let hash : r.request_hash ≡ h = ground (arith, opens, eq_iff r.request_hash h) in
    let finished : Keeps (Done h status json) k i r.expires_at (map f rows) = record {
      row = completes status json r;
      found = find-map (has_keys k i) f rows r (λ x. ground arith) found ∙ rw opens refl;
      expires = refl;
      holds = (refl, hash, refl, refl);
    } in
    let kept =
      run-Keeps (Done h status json) k i r.expires_at (map f rows) cs (Done-Stable h status json) b
        finished in
    let there =
      purged-Keeps (Done h status json) k i r.expires_at (run (map f rows) cs) later le kept in
    let (s, g, t, u) = there.holds in
    asked_again (run (map f rows) cs) there.row k i h later there.found
    ∙ ap ok (replayed there.row h status json s g t u)
