-- ===== src/Adapter/Cases.antt =====
-- Case splits on the results of the adapter manager, crates/easybot-core/src/adapter.
use easy_bot.Base.{◌≡◌, refl, ◌⊎◌, inl, inr, String, Option, Bool, true, false, if◌then◌else◌}
use easy_bot.Error.{GatewayError}
use easy_bot.Adapter.Reconnect.{TextOps, ReconnectFailure, temporary, permanent}
use easy_bot.Adapter.Manager.{
  PlatformAdapter, Answer, done, error, Started, launched, init_failed, refused,
}

pub Failure-cases :
    (f : ReconnectFailure)
    → ((msg : String) × (f ≡ temporary msg)) ⊎ ((msg : String) × (f ≡ permanent msg))
Failure-cases (temporary msg) = inl (msg, refl)
Failure-cases (permanent msg) = inr (msg, refl)

pub Answer-cases {ℓ} :
    {T : Type ℓ} (r : Answer T) → ((t : T) × (r ≡ done t)) ⊎ ((e : GatewayError) × (r ≡ error e))
Answer-cases (done t) = inl (t, refl)
Answer-cases (error e) = inr (e, refl)

-- What holds of every outcome behind the guards of a round holds of the round.
pub guarded {ℓ κ} :
    {T : Type ℓ} (P : T → Type κ) (w p h : Bool) (idle cleared examined : T)
    → P idle
    → P cleared
    → P examined
    → P (if w then idle else (if p then (if h then cleared else idle) else examined))
guarded P true p h x y z a b c = a
guarded P false true true x y z a b c = b
guarded P false true false x y z a b c = a
guarded P false false h x y z a b c = c

pub Started-cases :
    {C A K : Type 0} {ops : PlatformAdapter C A K} {text : TextOps} (s : Started ops text)
    → ((a : A) × (c : C) × (s ≡ launched a c))
      ⊎ (((o : Option String) × (s ≡ init_failed o)) ⊎ ((e : GatewayError) × (s ≡ refused e)))
Started-cases (launched a c) = inl (a, c, refl)
Started-cases (init_failed o) = inr (inl (o, refl))
Started-cases (refused e) = inr (inr (e, refl))
