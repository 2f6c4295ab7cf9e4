-- ===== src/Persist/Interruption.antt =====
-- crates/easybot-core/src/session/bridge.rs: which messages end the program.
use easy_bot.Base.{
  ℕ, ◌≡◌, refl, ◌∙◌, ◌↔◌, ◌⊎◌, any, String, Bool, true, false, Option, none, some, List, [], ◌∷◌,
  lookup, lookup-insert, eq_iff, arith, Option-cases, inl, inr,
}
use easy_bot.Session.Types.{Session, SessionSource}
use easy_bot.Session.Manager.{
  SessionManager, keep, fresh_session, get_or_create, summary, update_last_message,
}
use easy_bot.Persist.Bridge.{
  InboundMessage, message_text, key_of, source_of, note_message, enriched, handle_inbound,
  handle_all,
}

abbrev pub is_none_text : Option (List ℕ) → Bool
is_none_text none = true
is_none_text (some t) = false

-- The message has a text whose summary panics.
abbrev pub has_no_summary : InboundMessage → Bool
has_no_summary msg = elim (message_text msg) [ none ↦ false | some t ↦ is_none_text (summary t) ]

module _ {M : Type 0} (as_text : List ℕ → String)
    (enrich : String → SessionSource → Option SessionSource) where
  opened-lookup :
      (empty : M) (stored : Bool) (m : SessionManager M) (key : String) (source : SessionSource)
      (now : ℕ)
      → (s : Session M) × (lookup key (get_or_create empty stored m key source now).0.sessions
          ≡ some s)
  unfolding get_or_create
  opened-lookup empty stored m key source now = elim (Option-cases (lookup key m.sessions)) [
    | inl e ↦ (
      fresh_session empty key source now,
      rw (e, get_or_create)
          (lookup-insert key key (fresh_session empty key source now) m.sessions
            ∙ ground (arith, eq_iff key key)),
    )
    | inr (s, e) ↦ (
      record s { updated_at = now },
      rw (e, get_or_create)
          (lookup-insert key key (record s { updated_at = now }) m.sessions
            ∙ ground (arith, eq_iff key key)),
    )
  ]

  unnoted :
      (stored : Bool) (m : SessionManager M) (key : String) (s : Session M) (t : List ℕ) (ts : ℕ)
      → lookup key m.sessions ≡ some s
      → summary t ≡ none
      → note_message as_text enrich stored m key (some t) ts ≡ none
  unfolding update_last_message
  unnoted stored m key s t ts found k =
      let fails : update_last_message stored m key (some t) ts ≡ none =
        rw (found, k, update_last_message) refl in
      rw (fails, note_message) refl

  noted :
      (stored : Bool) (m : SessionManager M) (key : String) (s : Session M) (t cut : List ℕ)
      (ts : ℕ)
      → lookup key m.sessions ≡ some s
      → summary t ≡ some cut
      → (after : SessionManager M) × (note_message as_text enrich stored m key (some t) ts
          ≡ some after)
  unfolding update_last_message
  noted stored m key s t cut ts found k =
      let s1 : Session M = record s { last_message = some cut; last_message_at = some ts } in
      let works : update_last_message stored m key (some t) ts
          ≡ some (keep stored m key s1, some s1) =
        rw (found, k, update_last_message) refl in
      (keep stored m key s1, rw (works, note_message) refl)

  -- One message: the program ends exactly if its text has no summary.
  one_message :
      (empty : M) (stored : Bool) (m : SessionManager M) (msg : InboundMessage) (now : ℕ)
      → (has_no_summary msg ≡ true) × (handle_inbound as_text enrich empty stored m msg now ≡ none)
        ⊎ (has_no_summary msg ≡ false)
          × ((next : SessionManager M) × (handle_inbound as_text enrich empty stored m msg now
                ≡ some next))
  unfolding handle_inbound
  one_message empty stored m msg now =
      let key = key_of as_text msg in
      let opened = (get_or_create empty stored m key (source_of as_text msg) now).0 in
      let (s, found) = opened-lookup empty stored m key (source_of as_text msg) now in
      let after_note =
        λ (c : SessionManager M). enriched as_text enrich stored c key (as_text msg.platform) now in
      elim (Option-cases (message_text msg)) [
        | inl silent ↦ inr (
          rw (silent, has_no_summary) refl,
          (after_note opened, rw (silent, handle_inbound) refl),
        )
        | inr (t, says) ↦ elim (Option-cases (summary t)) [
          | inl panics ↦ inl (
            rw (says, panics, has_no_summary) refl,
            rw (says, unnoted stored opened key s t msg.timestamp found panics, handle_inbound)
                refl,
          )
          | inr (cut, short) ↦
              let (after, works) = noted stored opened key s t cut msg.timestamp found short in
              inr (
                rw (says, short, has_no_summary) refl,
                (after_note after, rw (says, works, handle_inbound) refl),
              )
        ]
      ]

  -- The messages of the bus end the program exactly if the text of one of them has no summary,
  -- whatever the sessions, the store and the other messages are.
  pub handle_all_aborts_iff :
      (empty : M) (stored : Bool) (m : SessionManager M) (es : List (InboundMessage × ℕ))
      → (handle_all as_text enrich empty stored m es ≡ none)
        ↔ (any (λ (e : InboundMessage × ℕ). has_no_summary e.0) es ≡ true)
  unfolding handle_all
  handle_all_aborts_iff empty stored m [] = (λ h. absurd (cc h), λ h. absurd (cc h))
  handle_all_aborts_iff empty stored m (e ∷ es) = elim (one_message empty stored m e.0 e.1) [
    | inl (here, ends) ↦ (λ h. rw here refl, λ h. rw (ends, handle_all) refl)
    | inr (not_here, (next, goes)) ↦
        let (to, from) = handle_all_aborts_iff empty stored next es in
        (
          λ h. rw not_here (to (rw (goes, handle_all) at h)),
          λ h. rw (goes, handle_all) (from (rw not_here at h)),
        )
  ]
