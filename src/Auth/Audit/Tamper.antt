-- ===== src/Auth/Audit/Tamper.antt =====
-- crates/easybot-core/src/auth/api_key/audit.rs: what a verified chain says of the events.
use easy_bot.Base.{
  ℕ, suc, ◌+◌, ◌≡◌, refl, sym, ap, ◌∙◌, subst, inl, inr, String, Bool, true, false, ◌&&◌, Option,
  none, some, List, [], ◌∷◌, length, leb, All-mono, eq_iff, arith, Bool-cases, All,
}
use easy_bot.Auth.Audit.{
  AuditEvent, Content, AuditDb, AuditLedger, genesis, content, event_of, place, ordered,
  audit_event_follows, chain_end, anchored, verify_audit_chain,
}

-- A list turned round onto another.
abbrev onto : List AuditEvent → List AuditEvent → List AuditEvent
onto [] acc = acc
onto (e ∷ es) acc = onto es (e ∷ acc)

onto-onto : (es acc : List AuditEvent) → onto (onto es acc) [] ≡ onto acc es
onto-onto [] acc = refl
onto-onto (e ∷ es) acc = onto-onto es (e ∷ acc)

length-onto : (es acc : List AuditEvent) → length (onto es acc) ≡ length es + length acc
length-onto [] acc = omega arith
length-onto (e ∷ es) acc = omega (arith, length-onto es (e ∷ acc))

length-place : (e : AuditEvent) (es : List AuditEvent) → length (place e es) ≡ suc (length es)
unfolding place
length-place e [] = refl
length-place e (f ∷ fs) = ground (arith, length-place e fs)

length-ordered : (es : List AuditEvent) → length (ordered es) ≡ length es
unfolding ordered
length-ordered [] = refl
length-ordered (e ∷ es) = omega (arith, length-place e (ordered es), length-ordered es)

some-inj : {x y : String} → some x ≡ some y → x ≡ y
some-inj h = cc h

and-split : {a b : Bool} → (a && b) ≡ true → (a ≡ true) × (b ≡ true)
and-split {a = true} {b = true} h = (refl, refl)
and-split {a = true} {b = false} h = absurd (cc h)
and-split {a = false} {b = b} h = absurd (cc h)

All-onto :
    (P : AuditEvent → Type 0) (es acc : List AuditEvent)
    → All P es
    → All P acc
    → All P (onto es acc)
All-onto P [] acc h k = k
All-onto P (e ∷ es) acc (p, h) k = All-onto P es (e ∷ acc) h (p, k)

All-place :
    (P : AuditEvent → Type 0) (e : AuditEvent) (es : List AuditEvent)
    → P e
    → All P es
    → All P (place e es)
unfolding place
All-place P e [] p h = (p, tt)
All-place P e (f ∷ fs) p (q, h) = elim (Bool-cases (leb e.timestamp f.timestamp)) [
  | inl g ↦ rw (g, place) (p, (q, h))
  | inr g ↦ rw (g, place) (q, All-place P e fs p h)
]

All-ordered : (P : AuditEvent → Type 0) (es : List AuditEvent) → All P es → All P (ordered es)
unfolding ordered
All-ordered P [] h = tt
All-ordered P (e ∷ es) (p, h) = All-place P e (ordered es) p (All-ordered P es h)

module _ (audit_hash : Content → String) where
  -- No event of the first list has the hash of another event of the second.
  abbrev pub NoCollision : List AuditEvent → List AuditEvent → Type 0
  NoCollision es fs =
      All
        (λ e. All (λ f. audit_hash (content e) ≡ audit_hash (content f) → content e ≡ content f) fs)
        es

  -- The chain from its head back to its start.
  abbrev Back : String → String → List AuditEvent → Type 0
  Back start head [] = head ≡ start
  Back start head (e ∷ es) =
      (e.event_hash ≡ head) × (audit_hash (content e) ≡ head) × Back start e.previous_hash es

  chain-Back :
      (start previous head : String) (es acc : List AuditEvent)
      → Back start previous acc
      → chain_end audit_hash previous es ≡ some head
      → Back start head (onto es acc)
  unfolding chain_end
  chain-Back start previous head [] acc b h =
      subst (λ (t : String). Back start t acc) (some-inj h) b
  chain-Back start previous head (e ∷ es) acc b h =
      elim (Bool-cases (audit_event_follows audit_hash e previous)) [
        | inl g ↦
            let (from, hashed) = and-split g in
            chain-Back start e.event_hash head es (e ∷ acc)
              (
                refl,
                sym ((eq_iff e.event_hash (audit_hash (content e))).0 hashed),
                subst (λ (t : String). Back start t acc)
                    (sym ((eq_iff e.previous_hash previous).0 from)) b,
              )
              (rw (g, chain_end) at h)
        | inr g ↦ absurd (cc (rw (g, chain_end) at h))
      ]

  Back-unique :
      (start head : String) (es fs : List AuditEvent)
      → Back start head es
      → Back start head fs
      → length es ≡ length fs
      → NoCollision es fs
      → es ≡ fs
  Back-unique start head [] [] b c h n = refl
  Back-unique start head [] (f ∷ fs) b c h n = absurd (omega (arith, h))
  Back-unique start head (e ∷ es) [] b c h n = absurd (omega (arith, h))
  Back-unique start head (e ∷ es) (f ∷ fs) (b, b', back) (c, c', back') h ((k, _), n) =
      let same : content e ≡ content f = k (b' ∙ sym c') in
      let event : e ≡ f =
        ap (λ (t : String). event_of (content e) t) (b ∙ sym c)
        ∙ ap (λ (t : Content). event_of t f.event_hash) same in
      let earlier : e.previous_hash ≡ f.previous_hash =
        ap (λ (t : Content). t.previous_hash) same in
      let rest =
        Back-unique start e.previous_hash es fs back
          (subst (λ (t : String). Back start t fs) (sym earlier) back') (omega (arith, h))
          (All-mono _ _ es (λ x r. r.1) n) in
      ap (λ (x : AuditEvent). x ∷ es) event ∙ ap (λ (xs : List AuditEvent). f ∷ xs) rest

  NoCollision-turned :
      (rows rows' : List AuditEvent)
      → NoCollision rows rows'
      → NoCollision (onto (ordered rows) []) (onto (ordered rows') [])
  NoCollision-turned rows rows' n =
      All-onto _ (ordered rows) []
        (All-ordered _ rows
          (All-mono _ _ rows (λ e h. All-onto _ (ordered rows') [] (All-ordered _ rows' h) tt) n))
        tt

  chain_unique :
      (head : String) (es fs : List AuditEvent)
      → chain_end audit_hash genesis es ≡ some head
      → chain_end audit_hash genesis fs ≡ some head
      → length es ≡ length fs
      → NoCollision (onto es []) (onto fs [])
      → es ≡ fs
  chain_unique head es fs h k l n =
      let turned =
        Back-unique genesis head (onto es []) (onto fs [])
          (chain-Back genesis genesis head es [] refl h)
          (chain-Back genesis genesis head fs [] refl k)
          (omega (arith, length-onto es [], length-onto fs [], l)) n in
      sym (onto-onto es []) ∙ ap (λ (xs : List AuditEvent). onto xs []) turned ∙ onto-onto fs []

  anchored-head :
      (end : Option String) (n : ℕ) (head : String) (count : ℕ)
      → anchored audit_hash end n (some (head, count)) ≡ true
      → (end ≡ some head) × (n ≡ count)
  anchored-head none n head count h = absurd (cc h)
  anchored-head (some e) n head count h =
      let (same, counted) = and-split h in
      (ap some (sym ((eq_iff head e).0 same)), ground (arith, counted))

  -- Two ledgers on databases with the same anchor that both verify hold the same events in the same
  -- order, unless two of their events have the same hash and different contents: no event of a
  -- ledger can be changed, removed, added or moved while its chain and its anchor still verify.
  pub verified_unique :
      (l l' : AuditLedger) (db db' : AuditDb) (head : String) (count : ℕ)
      → l.pool ≡ some db
      → l'.pool ≡ some db'
      → db.anchor ≡ some (head, count)
      → db'.anchor ≡ some (head, count)
      → verify_audit_chain audit_hash l ≡ true
      → verify_audit_chain audit_hash l' ≡ true
      → NoCollision db.rows db'.rows
      → ordered db.rows ≡ ordered db'.rows
  unfolding verify_audit_chain
  verified_unique l l' db db' head count p p' a a' v v' n =
      let (h, m) =
        anchored-head (chain_end audit_hash genesis (ordered db.rows)) (length db.rows) head count
          (rw (p, a, verify_audit_chain) at v) in
      let (h', m') =
        anchored-head (chain_end audit_hash genesis (ordered db'.rows)) (length db'.rows) head count
          (rw (p', a', verify_audit_chain) at v') in
      chain_unique head (ordered db.rows) (ordered db'.rows) h h'
        (omega (arith, length-ordered db.rows, length-ordered db'.rows, m, m'))
        (NoCollision-turned db.rows db'.rows n)
