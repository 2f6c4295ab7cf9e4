-- ===== src/Auth/Audit/Tests.antt =====
-- Ledgers of two events, whose hashes are their ids.
use easy_bot.Base.{ℕ, ◌≡◌, refl, String, Bool, true, false, some, List, [], ◌∷◌, arith}
use easy_bot.Auth.Audit.{
  AuditEvent, Content, AuditDb, AuditStep, commit, genesis, place, ordered, append_event,
  record_audit, chain_end, verify_audit_chain, restarted,
}
use easy_bot.Auth.Audit.Growth.{Step, records, restarts, run, run-verified}
use easy_bot.Auth.Audit.Tamper.{verified_unique}

abbrev id_hash : Content → String
id_hash c = c.id

abbrev healthy : AuditStep → Bool
healthy step = false

abbrev no_commit : AuditStep → Bool
no_commit commit = true
no_commit _ = false

abbrev revoked : String → ℕ → Content
revoked id timestamp = record {
  id = id;
  timestamp = timestamp;
  actor_id = "ann";
  action = "api_key.revoke";
  resource = "key";
  metadata = "{}";
  previous_hash = "";
}

abbrev fresh : AuditDb
fresh = record { rows = []; anchor = some (genesis, 0) }

abbrev steps : List Step
steps =
    records healthy (revoked "a" 5)
    ∷ records no_commit (revoked "b" 6)
    ∷ restarts
    ∷ records healthy (revoked "c" 7)
    ∷ []

runs : Unit {0}
unfolding place ordered append_event record_audit chain_end verify_audit_chain
runs = tt

run-verified_example : verify_audit_chain id_hash (run id_hash (restarted fresh) steps) ≡ true
run-verified_example = run-verified id_hash steps (omega arith, (omega arith, (omega arith, tt)))

-- A clock that is set back between two records breaks the chain, though nobody touched the ledger.
clock_set_back :
    verify_audit_chain id_hash (
      run id_hash
        (restarted fresh)
        (records healthy (revoked "a" 7) ∷ records healthy (revoked "b" 5) ∷ []))
    ≡ false
unfolding runs
clock_set_back = refl

abbrev event_a : AuditEvent
event_a = record {
  id = "a";
  timestamp = 5;
  actor_id = "ann";
  action = "api_key.revoke";
  resource = "key";
  metadata = "{}";
  previous_hash = genesis;
  event_hash = "a";
}

abbrev one_event : AuditDb
one_event = record { rows = event_a ∷ []; anchor = some ("a", 1) }

verified_unique_example : ordered one_event.rows ≡ ordered one_event.rows
unfolding runs
verified_unique_example =
    verified_unique id_hash (restarted one_event) (restarted one_event) one_event one_event "a" 1
      refl refl refl refl refl refl ((λ h. refl, tt), tt)
