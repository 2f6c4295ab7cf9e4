-- ===== src/Auth/Audit/Intact.antt =====
-- crates/easybot-core/src/auth/api_key/audit.rs: what a ledger is that verifies, and that an event can
-- be appended to.
use easy_bot.Base.{
  ℕ, suc, ◌≤◌, ◌≡◌, refl, sym, ap, ◌∙◌, subst, inl, inr, String, Bool, true, Option, none, some,
  List, [], ◌∷◌, ◌++◌, leb, length, eq_iff, arith, Bool-cases, Ascends, All, All-append, All-mono,
  append-Ascends, length-append,
}
use easy_bot.Auth.Audit.{
  AuditEvent, Content, AuditDb, AuditLedger, AuditStep, insert_event, update_anchor, commit,
  genesis, or_genesis, place, ordered, anchor_moves, append_event, new_event, audit_event_follows,
  chain_end, verify_audit_chain, previous_of,
}

abbrev pub times : List AuditEvent → List ℕ
times [] = []
times (e ∷ es) = e.timestamp ∷ times es

pub times-append :
    (es : List AuditEvent) (e : AuditEvent) → times (es ++ e ∷ []) ≡ times es ++ e.timestamp ∷ []
times-append [] e = refl
times-append (f ∷ es) e = ap (λ (ts : List ℕ). f.timestamp ∷ ts) (times-append es e)

pub place-first :
    (e : AuditEvent) (es : List AuditEvent) → Ascends e.timestamp (times es) → place e es ≡ e ∷ es
unfolding place
place-first e [] h = refl
place-first e (f ∷ es) (le, h) =
    let first : leb e.timestamp f.timestamp ≡ true = ground (arith, le) in rw (first, place) refl

pub ordered-ascending :
    (from : ℕ) (es : List AuditEvent) → Ascends from (times es) → ordered es ≡ es
unfolding ordered
ordered-ascending from [] h = refl
ordered-ascending from (e ∷ es) (le, h) =
    ap (place e) (ordered-ascending e.timestamp es h) ∙ place-first e es h

module _ (audit_hash : Content → String) where
  pub chain_end-append :
      (previous head : String) (es : List AuditEvent) (e : AuditEvent)
      → chain_end audit_hash previous es ≡ some head
      → audit_event_follows audit_hash e head ≡ true
      → chain_end audit_hash previous (es ++ e ∷ []) ≡ some e.event_hash
  unfolding chain_end
  chain_end-append previous head [] e h f =
      let same : previous ≡ head = cc h in
      let f' : audit_event_follows audit_hash e previous ≡ true = rw same f in
      rw (f', chain_end) refl
  chain_end-append previous head (d ∷ es) e h f =
      elim (Bool-cases (audit_event_follows audit_hash d previous)) [
        | inl g ↦
            rw (g, chain_end) (chain_end-append d.event_hash head es e (rw (g, chain_end) at h) f)
        | inr g ↦ absurd (cc (rw (g, chain_end) at h))
      ]

  -- The rows are a chain in the order of their times, up to `last`, whose head and length the anchor
  -- holds, and whose head the ledger knows.
  pub record Intact (db : AuditDb) (head : Option String) (last : ℕ) : Type 0 where
    pub chain : chain_end audit_hash genesis db.rows ≡ some (or_genesis head)
    pub anchor : db.anchor ≡ some (or_genesis head, length db.rows)
    pub ascends : Ascends 0 (times db.rows)
    pub past : All (λ t. t ≤ last) (times db.rows)

  pub verify-Intact :
      (db : AuditDb) (head : Option String) (last : ℕ) (kept : List AuditEvent)
      → Intact db head last
      → verify_audit_chain audit_hash
          (record { pool = some db; audit_events = kept; audit_head = head })
        ≡ true
  unfolding verify_audit_chain
  verify-Intact db head last kept i =
      let sorted = ordered-ascending 0 db.rows i.ascends in
      rw (sorted, i.chain, i.anchor) ((ground (arith, eq_iff (or_genesis head) (or_genesis head))))

  pub new_event-follows :
      (l : AuditLedger) (given : Content) (previous : String)
      → previous_of l ≡ previous
      → audit_event_follows audit_hash (new_event audit_hash l given) previous ≡ true
  new_event-follows l given previous h =
      let hash = audit_hash (record given { previous_hash = previous_of l }) in
      rw ((eq_iff (previous_of l) previous).1 h, (eq_iff hash hash).1 refl) refl

  unfoldable pub appended : AuditDb → AuditEvent → AuditDb
  appended db e = record {
    rows = db.rows ++ e ∷ [];
    anchor = some (e.event_hash, suc (length db.rows));
  }

  pub append_event-none :
      (fault : AuditStep → Bool) (db : AuditDb) (e : AuditEvent) (anchor : String × ℕ)
      → anchor_moves e.previous_hash e.event_hash db.anchor ≡ some anchor
      → (append_event audit_hash fault db e).1 ≡ none
      → (append_event audit_hash fault db e).0
        ≡ record { rows = db.rows ++ e ∷ []; anchor = some anchor }
  unfolding append_event
  append_event-none fault db e anchor a h = elim (Bool-cases (fault insert_event)) [
    | inl f ↦ absurd (cc (rw (f, append_event) at h))
    | inr f ↦ elim (Bool-cases (fault update_anchor)) [
      | inl g ↦ absurd (cc (rw (f, g, append_event) at h))
      | inr g ↦ elim (Bool-cases (fault commit)) [
        | inl k ↦ absurd (cc (rw (f, g, a, k, append_event) at h))
        | inr k ↦ rw (f, g, a, k, append_event) refl
      ]
    ]
  ]

  pub Intact-appended :
      (db : AuditDb) (head : Option String) (last : ℕ) (e : AuditEvent)
      → Intact db head last
      → last ≤ e.timestamp
      → audit_event_follows audit_hash e (or_genesis head) ≡ true
      → Intact (appended db e) (some e.event_hash) e.timestamp
  unfolding appended
  Intact-appended db head last e i le f =
      let old =
        All-mono (λ t. t ≤ last) (λ t. t ≤ e.timestamp) (times db.rows)
          (λ t k. omega (arith, le, k)) i.past in
      let moved = times-append db.rows e in
      record {
        chain = chain_end-append genesis (or_genesis head) db.rows e i.chain f;
        anchor =
            ap (λ (n : ℕ). some (e.event_hash, n)) (omega (arith, length-append db.rows (e ∷ [])));
        ascends =
            subst (Ascends 0) (sym moved)
              (append-Ascends 0 e.timestamp (times db.rows) (omega arith) i.ascends old);
        past = subst (All (λ t. t ≤ e.timestamp)) (sym moved) (
            All-append (λ t. t ≤ e.timestamp) (times db.rows) (e.timestamp ∷ []) old
              (omega arith, tt));
      }

  pub weaken :
      (db : AuditDb) (head : Option String) (last later : ℕ)
      → Intact db head last
      → last ≤ later
      → Intact db head later
  weaken db head last later i le = record {
    chain = i.chain;
    anchor = i.anchor;
    ascends = i.ascends;
    past =
        All-mono (λ t. t ≤ last) (λ t. t ≤ later) (times db.rows) (λ t k. omega (arith, le, k))
          i.past;
  }

  abbrev pub IntactLedger : AuditLedger → ℕ → Type 0
  IntactLedger l last = (db : AuditDb) × (l.pool ≡ some db) × Intact db l.audit_head last
