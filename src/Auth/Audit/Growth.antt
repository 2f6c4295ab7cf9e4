-- ===== src/Auth/Audit/Growth.antt =====
-- crates/easybot-core/src/auth/api_key/audit.rs: the ledger under records and restarts.
use easy_bot.Base.{
  ℕ, suc, ◌≤◌, ◌≡◌, refl, sym, ap, ◌∙◌, subst, inl, inr, String, Bool, true, false, Option, none,
  some, List, [], ◌∷◌, length, eq_iff, ◌==◌, arith, Option-cases, Ascends,
}
use easy_bot.Auth.Audit.{
  AuditEvent, Content, AuditDb, AuditLedger, AuditStep, genesis, or_genesis, anchor_moves,
  append_event, new_event, record_audit, chain_end, verify_audit_chain, loaded_head, restarted,
  previous_of,
}
use easy_bot.Auth.Audit.Intact.{
  Intact, verify-Intact, new_event-follows, appended, append_event-none, Intact-appended, weaken,
  IntactLedger,
}

-- A record with the failures of its transaction, or a restart of the program.
pub data Step : Type 0 where
  records : (AuditStep → Bool) → Content → Step
  restarts : Step

abbrev pub step_times : List Step → List ℕ
step_times [] = []
step_times (records fault given ∷ ss) = given.timestamp ∷ step_times ss
step_times (restarts ∷ ss) = step_times ss

module _ (audit_hash : Content → String) where
  record_audit-Intact :
      (fault : AuditStep → Bool) (l : AuditLedger) (given : Content) (last : ℕ)
      → IntactLedger audit_hash l last
      → last ≤ given.timestamp
      → IntactLedger audit_hash (record_audit audit_hash fault l given).0 given.timestamp
  unfolding record_audit appended
  record_audit-Intact fault l given last (db, pool, i) le =
      let e = new_event audit_hash l given in
      let known : previous_of l ≡ or_genesis l.audit_head = rw pool refl in
      let moves : anchor_moves e.previous_hash e.event_hash db.anchor
          ≡ some (e.event_hash, suc (length db.rows)) =
        rw (i.anchor, (eq_iff (or_genesis l.audit_head) (previous_of l)).1 (sym known)) refl in
      elim (Option-cases (append_event audit_hash fault db e).1) [
        | inr (x, h) ↦
            rw (pool, h, record_audit)
              (db, pool, weaken audit_hash db l.audit_head last given.timestamp i le)
        | inl h ↦
            let grown =
              append_event-none audit_hash fault db e (e.event_hash, suc (length db.rows)) moves
                h in
            rw (pool, h, record_audit)
              (
                (append_event audit_hash fault db e).0,
                refl,
                subst (λ (d : AuditDb). Intact audit_hash d (some e.event_hash) given.timestamp)
                    (sym grown)
                    (Intact-appended audit_hash db l.audit_head last e i le
                      (new_event-follows audit_hash l given (or_genesis l.audit_head) known)),
              )
      ]

  reheaded :
      (db : AuditDb) (head head' : Option String) (last : ℕ)
      → or_genesis head' ≡ or_genesis head
      → Intact audit_hash db head last
      → Intact audit_hash db head' last
  reheaded db head head' last same i = record {
    chain = rw same i.chain;
    anchor = rw same i.anchor;
    ascends = i.ascends;
    past = i.past;
  }

  -- Over an empty ledger the head is the start of the chain.
  empty_or_known :
      (rows : List AuditEvent) (head : String)
      → chain_end audit_hash genesis rows ≡ some head
      → or_genesis (loaded_head (some (head, length rows))) ≡ head
  unfolding chain_end
  empty_or_known [] head c = cc c
  empty_or_known (e ∷ es) head c =
      let more : (suc (length es) == 0) ≡ false = ground arith in rw more refl

  loaded_head-same :
      (db : AuditDb) (head : Option String) (last : ℕ)
      → Intact audit_hash db head last
      → or_genesis (loaded_head db.anchor) ≡ or_genesis head
  loaded_head-same db head last i =
      ap (λ (a : Option (String × ℕ)). or_genesis (loaded_head a)) i.anchor
      ∙ empty_or_known db.rows (or_genesis head) i.chain

  abbrev pub step : AuditLedger → Step → AuditLedger
  step l (records fault given) = (record_audit audit_hash fault l given).0
  step l restarts = elim (l.pool) [ none ↦ l | some db ↦ restarted db ]

  abbrev pub run : AuditLedger → List Step → AuditLedger
  run l [] = l
  run l (s ∷ ss) = run (step l s) ss

  restart-Intact :
      (l : AuditLedger) (last : ℕ)
      → IntactLedger audit_hash l last
      → IntactLedger audit_hash (step l restarts) last
  restart-Intact l last (db, pool, i) = rw pool (
    db,
    refl,
    reheaded db l.audit_head (loaded_head db.anchor) last (loaded_head-same db l.audit_head last i)
        i,
  )

  run-Intact :
      (l : AuditLedger) (last : ℕ) (ss : List Step)
      → IntactLedger audit_hash l last
      → Ascends last (step_times ss)
      → (later : ℕ) × IntactLedger audit_hash (run l ss) later
  run-Intact l last [] i h = (last, i)
  run-Intact l last (records fault given ∷ ss) i (le, h) =
      run-Intact (step l (records fault given)) given.timestamp ss
        (record_audit-Intact fault l given last i le) h
  run-Intact l last (restarts ∷ ss) i h =
      run-Intact (step l restarts) last ss (restart-Intact l last i) h

  verify_pool :
      (l : AuditLedger) (db : AuditDb) (last : ℕ)
      → l.pool ≡ some db
      → Intact audit_hash db l.audit_head last
      → verify_audit_chain audit_hash l ≡ true
  unfolding verify_audit_chain
  verify_pool l db last pool i =
      rw (pool, verify_audit_chain) (verify-Intact audit_hash db l.audit_head last [] i)

  -- From an empty ledger on, after any records, with any failures of their transactions, and any
  -- restarts, the chain of the ledger verifies, provided that the times of the records do not run
  -- backwards.
  pub run-verified :
      (ss : List Step)
      → Ascends 0 (step_times ss)
      → verify_audit_chain audit_hash
          (run (restarted (record { rows = []; anchor = some (genesis, 0) })) ss)
        ≡ true
  unfolding chain_end
  run-verified ss h =
      let fresh : AuditDb = record { rows = []; anchor = some (genesis, 0) } in
      let start : Intact audit_hash fresh none 0 = record {
        chain = refl;
        anchor = refl;
        ascends = tt;
        past = tt;
      } in
      let (later, intact) = run-Intact (restarted fresh) 0 ss (fresh, refl, start) h in
      let (db, pool, i) = intact in verify_pool (run (restarted fresh) ss) db later pool i
