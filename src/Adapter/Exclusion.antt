-- ===== src/Adapter/Exclusion.antt =====
-- crates/easybot-core/src/adapter/manager.rs: no platform runs while it connects.
use easy_bot.Base.{
  ◌≡◌, subst, inl, inr, String, true, false, List, lookup, insert, remove, contains_key,
  contains_key-insert, contains_key-remove, str_eq, eq_iff, arith, Bool-cases, Option-cases,
  Sum-cases,
}
use easy_bot.Adapter.Reconnect.{TextOps}
use easy_bot.Adapter.Manager.{
  PlatformAdapter, AdapterManager, launch, start, stop, stop_running, connected_ok,
  connected_failed, succeeded, land, finish_connect,
}
use easy_bot.Adapter.Cases.{Answer-cases}

-- No key of the first map is one of the second.
abbrev pub Disjoint {ℓ κ} :
    {V : Type ℓ} {W : Type κ} → List (String × V) → List (String × W) → Type 0
Disjoint m n = (p : String) → contains_key p m ≡ true → contains_key p n ≡ false

module _ {ℓ κ} {V : Type ℓ} {W : Type κ} (m : List (String × V)) (n : List (String × W)) where
  Disjoint-enter :
      (k : String) (v : V) → contains_key k n ≡ false → Disjoint m n → Disjoint (insert k v m) n
  Disjoint-enter k v h d p e = elim (Bool-cases (str_eq k p)) [
    | inl same ↦ subst (λ (q : String). contains_key q n ≡ false) ((eq_iff k p).0 same) h
    | inr other ↦ d p (ground (arith, contains_key-insert k p v m, other, e))
  ]

  Disjoint-leave : (k : String) → Disjoint m n → Disjoint (remove k m) n
  Disjoint-leave k d p e = ground (arith, contains_key-remove k p m, d p)

  Disjoint-move : (k : String) (w : W) → Disjoint m n → Disjoint (remove k m) (insert k w n)
  Disjoint-move k w d p e =
      ground (arith, contains_key-remove k p m, contains_key-insert k p w n, d p)

  pub Disjoint-replace :
      (k : String) (w : W) → contains_key k n ≡ true → Disjoint m n → Disjoint m (insert k w n)
  Disjoint-replace k w h d p e = ground (arith, contains_key-insert k p w n, eq_iff k p, d p, e, h)

  pub Disjoint-drop : (k : String) → Disjoint m n → Disjoint m (remove k n)
  Disjoint-drop k d p e = ground (arith, contains_key-remove k p n, d p e)

module _ {C A K : Type 0} (ops : PlatformAdapter C A K) (text : TextOps) where
  -- No platform is both running and connecting.
  abbrev pub IsApart : AdapterManager C A K → Type 0
  IsApart m = Disjoint m.pending m.adapters

  pub launch-IsApart :
      (m : AdapterManager C A K) (a : A) (c : C) → IsApart m → IsApart (launch ops text m a c).0
  unfolding launch
  launch-IsApart m a c h = elim (Bool-cases (contains_key (ops.platform_name a) m.adapters)) [
    | inl e ↦ rw (e, launch) h
    | inr e ↦ elim (Bool-cases (contains_key (ops.platform_name a) m.pending)) [
      | inl f ↦ rw (e, f, launch) h
      | inr f ↦ rw (e, f, launch) (Disjoint-enter m.pending m.adapters (ops.platform_name a) tt e h)
    ]
  ]

  pub start-IsApart :
      (m : AdapterManager C A K) (p : String) (c : C) → IsApart m → IsApart (start ops text m p c).0
  unfolding start
  start-IsApart m p c h = elim (Sum-cases (ops.create p (ops.inject_credentials p c))) [
    | inr (msg, e) ↦ rw (e, start) h
    | inl (made, e) ↦ elim (Answer-cases (ops.init made (ops.inject_credentials p c)).1) [
      | inr (x, f) ↦ rw (e, f, start) h
      | inl (r, f) ↦ elim (Bool-cases r.ok) [
        | inr g ↦ rw (e, f, g, start) h
        | inl g ↦
            rw (e, f, g, start)
              (launch-IsApart m (ops.init made (ops.inject_credentials p c)).0
                (ops.inject_credentials p c) h)
      ]
    ]
  ]

  pub finish_connect-IsApart :
      (m : AdapterManager C A K) (p : String) (a : A) (c : C)
      → IsApart m
      → IsApart (finish_connect ops text m p a c)
  unfolding finish_connect land connected_ok connected_failed
  finish_connect-IsApart m p a c h = elim (Bool-cases (contains_key p m.pending)) [
    | inr e ↦ rw (e, finish_connect) h
    | inl e ↦ elim (Bool-cases (succeeded ops text (ops.connect a).1)) [
      | inl f ↦ rw (e, f, finish_connect) (Disjoint-move m.pending m.adapters p (ops.connect a).0 h)
      | inr f ↦ rw (e, f, finish_connect) (Disjoint-leave m.pending m.adapters p h)
    ]
  ]

  pub stop-IsApart :
      (m : AdapterManager C A K) (p : String) → IsApart m → IsApart (stop ops text m p)
  unfolding stop stop_running
  stop-IsApart m p h = elim (Bool-cases (contains_key p m.pending)) [
    | inl e ↦ rw (e, stop) (Disjoint-leave m.pending m.adapters p h)
    | inr e ↦ elim (Option-cases (lookup p m.adapters)) [
      | inl f ↦ rw (e, f, stop) h
      | inr (a, f) ↦ rw (e, f, stop) (Disjoint-drop m.pending m.adapters p h)
    ]
  ]
