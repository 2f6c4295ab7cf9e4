-- ===== src/Webhook/Listed.antt =====
-- crates/easybot-core/src/webhook/mod.rs: the types that `run` subscribes to.
use easy_bot.Base.{
  ◌≡◌, refl, sym, ◌∙◌, inl, inr, String, Bool, true, false, ◌||◌, List, [], ◌∷◌, ◌++◌,
  if◌then◌else◌, str_eq, eq_iff, contains_text, any, count, count-append, arith, Bool-cases,
}
use easy_bot.Webhook.{WebhookConfig}
use easy_bot.Webhook.Subscription.{
  standard_types, Collected, push_new, push_all, collect_event, collect_events, collect, subscribed,
}

contains-append :
    (s : String) (xs ys : List String)
    → contains_text s (xs ++ ys) ≡ (contains_text s xs || contains_text s ys)
contains-append s [] ys = refl
contains-append s (x ∷ xs) ys = ground (arith, contains-append s xs ys)

-- A text stands in the list once at most.
abbrev Once : List String → Type 0
Once xs = (s : String) → count (λ t. str_eq t s) xs ≡ (if contains_text s xs then 1 else 0)

push_new-contains :
    (s t : String) (xs : List String)
    → contains_text s (push_new t xs) ≡ (contains_text s xs || str_eq t s)
unfolding push_new
push_new-contains s t xs = elim (Bool-cases (contains_text t xs)) [
  | inl e ↦ elim (Bool-cases (str_eq t s)) [
    | inl f ↦
        let same : contains_text s xs ≡ true = rw (sym ((eq_iff t s).0 f)) e in
        rw (e, f) (rw same refl)
    | inr f ↦ rw (e, f) (ground arith)
  ]
  | inr e ↦ rw e (contains-append s xs (t ∷ []) ∙ ground arith)
]

push_new-Once : (t : String) (xs : List String) → Once xs → Once (push_new t xs)
unfolding push_new
push_new-Once t xs h s = elim (Bool-cases (contains_text t xs)) [
  | inl e ↦ rw e (h s)
  | inr e ↦
      rw (e, contains-append s xs (t ∷ []), count-append (λ u. str_eq u s) xs (t ∷ []), h s)
        (elim (Bool-cases (str_eq t s)) [
          | inl f ↦
              let free : contains_text s xs ≡ false = rw (sym ((eq_iff t s).0 f)) e in
              rw (f, free) refl
          | inr f ↦ rw f (ground arith)
        ])
]

push_all-contains :
    (s : String) (ts xs : List String)
    → contains_text s (push_all ts xs) ≡ (contains_text s xs || contains_text s ts)
unfolding push_all
push_all-contains s [] xs = ground arith
push_all-contains s (t ∷ ts) xs =
    ground (arith, push_all-contains s ts (push_new t xs), push_new-contains s t xs)

push_all-Once : (ts xs : List String) → Once xs → Once (push_all ts xs)
unfolding push_all
push_all-Once [] xs h = h
push_all-Once (t ∷ ts) xs h = push_all-Once ts (push_new t xs) (push_new-Once t xs h)

collect_event-contains :
    (s t : String) (c : Collected)
    → str_eq "*" s ≡ false
    → (contains_text s (collect_event t c).all_types ≡ (contains_text s c.all_types || str_eq t s))
      × ((collect_event t c).catch_all ≡ (c.catch_all || str_eq t "*"))
collect_event-contains s t c plain = elim (Bool-cases (str_eq t "*")) [
  | inl e ↦
      let other : str_eq t s ≡ false = rw ((eq_iff t "*").0 e) plain in
      rw (e, other) (ground arith, ground arith)
  | inr e ↦ rw e (push_new-contains s t c.all_types, ground arith)
]

-- What is listed, and whether `*` is, after the events of a webhook, and of all webhooks.
collect_events-contains :
    (s : String) (ts : List String) (c : Collected)
    → str_eq "*" s ≡ false
    → (contains_text s (collect_events ts c).all_types
        ≡ (contains_text s c.all_types || contains_text s ts))
      × ((collect_events ts c).catch_all ≡ (c.catch_all || contains_text "*" ts))
collect_events-contains s [] c plain = (ground arith, ground arith)
collect_events-contains s (t ∷ ts) c plain =
    let (types, all) = collect_events-contains s ts (collect_event t c) plain in
    let (listed, star) = collect_event-contains s t c plain in
    (ground (arith, types, listed), ground (arith, all, star))

collect-contains :
    (s : String) (whs : List WebhookConfig) (c : Collected)
    → str_eq "*" s ≡ false
    → (contains_text s (collect whs c).all_types
        ≡ (contains_text s c.all_types || any (λ wh. contains_text s wh.events) whs))
      × ((collect whs c).catch_all ≡ (c.catch_all || any (λ wh. contains_text "*" wh.events) whs))
collect-contains s [] c plain = (ground arith, ground arith)
collect-contains s (wh ∷ whs) c plain =
    let (types, all) = collect-contains s whs (collect_events wh.events c) plain in
    let (listed, star) = collect_events-contains s wh.events c plain in
    (ground (arith, types, listed), ground (arith, all, star))

collect_event-Once :
    (t : String) (c : Collected) → Once c.all_types → Once (collect_event t c).all_types
collect_event-Once t c h = elim (Bool-cases (str_eq t "*")) [
  | inl e ↦ rw e h
  | inr e ↦ rw e (push_new-Once t c.all_types h)
]

collect_events-Once :
    (ts : List String) (c : Collected) → Once c.all_types → Once (collect_events ts c).all_types
collect_events-Once [] c h = h
collect_events-Once (t ∷ ts) c h =
    collect_events-Once ts (collect_event t c) (collect_event-Once t c h)

collect-Once :
    (whs : List WebhookConfig) (c : Collected) → Once c.all_types → Once (collect whs c).all_types
collect-Once [] c h = h
collect-Once (wh ∷ whs) c h =
    collect-Once whs (collect_events wh.events c) (collect_events-Once wh.events c h)

-- A webhook lists the type or `*`.
abbrev pub lists : String → WebhookConfig → Bool
lists event_type wh = contains_text "*" wh.events || contains_text event_type wh.events

any-or :
    (p q : WebhookConfig → Bool) (whs : List WebhookConfig)
    → any (λ wh. p wh || q wh) whs ≡ (any p whs || any q whs)
any-or p q [] = refl
any-or p q (wh ∷ whs) = ground (arith, any-or p q whs)

standard-plain : (s : String) → contains_text s standard_types ≡ true → str_eq "*" s ≡ false
standard-plain s h = elim (Bool-cases (str_eq "*" s)) [
  | inl e ↦ absurd (cc (rw (sym ((eq_iff "*" s).0 e)) at h))
  | inr e ↦ e
]

abbrev nothing_yet : Collected
nothing_yet = record { all_types = []; catch_all = false }

subscribed-contains :
    (s : String) (whs : List WebhookConfig)
    → contains_text s standard_types ≡ true
    → contains_text s (subscribed whs) ≡ any (lists s) whs
unfolding subscribed
subscribed-contains s whs h =
    let (types, star) = collect-contains s whs nothing_yet (standard-plain s h) in
    let c = collect whs nothing_yet in
    let split = any-or (λ wh. contains_text "*" wh.events) (λ wh. contains_text s wh.events) whs in
    elim (Bool-cases c.catch_all) [
      | inl e ↦
          rw e (ground (arith, push_all-contains s standard_types c.all_types, h, split, star, e))
      | inr e ↦ rw e (ground (arith, types, split, star, e))
    ]

subscribed-Once : (whs : List WebhookConfig) → Once (subscribed whs)
unfolding subscribed
subscribed-Once whs =
    let c = collect whs nothing_yet in
    let listed : Once c.all_types = collect-Once whs nothing_yet (λ s. refl) in
    elim (Bool-cases c.catch_all) [
      | inl e ↦ rw e (push_all-Once standard_types c.all_types listed)
      | inr e ↦ rw e listed
    ]

-- An event of a standard type arrives once if some webhook lists its type or `*`, else never.
pub subscribed-count :
    (s : String) (whs : List WebhookConfig)
    → contains_text s standard_types ≡ true
    → count (λ t. str_eq t s) (subscribed whs) ≡ (if any (lists s) whs then 1 else 0)
subscribed-count s whs h = rw (sym (subscribed-contains s whs h)) (subscribed-Once whs s)
