-- ===== src/Webhook/Signature.antt =====
-- crates/easybot-core/src/webhook/mod.rs: the signature of a request, and what its receiver can check.
use easy_bot.Base.{
  ℕ, ◌+◌, ◌*◌, ◌-◌, ◌/◌, ◌%◌, ◌<◌, ◌≡◌, ◌≢◌, refl, sym, ap, ◌∙◌, String, false, some, List, [], ◌∷◌,
  if◌then◌else◌, ltb, str_eq, take, All, arith,
}
use easy_bot.Webhook.{GatewayEvent, WebhookConfig, Libraries}
use easy_bot.Webhook.Dispatch.{hex_digit, hex_encode, prefixed, signature_of, request_to}

abbrev pub hex_value : ℕ → ℕ
hex_value c = if ltb c 58 then c - 48 else c - 87

-- What two digits for each byte stand for.
abbrev pub hex_decode : List ℕ → List ℕ
hex_decode [] = []
hex_decode (d ∷ []) = []
hex_decode (d ∷ e ∷ ds) = (16 * hex_value d + hex_value e) ∷ hex_decode ds

abbrev pub IsByte : ℕ → Type 0
IsByte b = b < 256

hex_value-hex_digit : (n : ℕ) → n < 16 → hex_value (hex_digit n) ≡ n
hex_value-hex_digit n h = ground arith

-- The digits of a list of bytes determine it.
pub hex_decode-encode : (bytes : List ℕ) → All IsByte bytes → hex_decode (hex_encode bytes) ≡ bytes
unfolding hex_encode
hex_decode-encode [] h = refl
hex_decode-encode (b ∷ bytes) (byte, h) =
    rw
      (
        hex_value-hex_digit (b / 16) (omega (arith, byte)),
        hex_value-hex_digit (b % 16) (omega arith),
        hex_decode-encode bytes h,
      )
      (ap (λ c. c ∷ bytes) (omega arith))

-- The bytes of `{"e` and of `{"d`.
abbrev pub starts_e : List ℕ
starts_e = 123 ∷ 34 ∷ 101 ∷ []

abbrev pub starts_d : List ℕ
starts_d = 123 ∷ 34 ∷ 100 ∷ []

-- `serde_json` writes the fields of a struct in the order of their declaration, here `event` first,
-- and reads back what it writes; without the feature `preserve_order` it writes the keys of an object
-- in their order, here `data` first. HMAC takes a key of any length, and its result is bytes.
pub record Documented {Value : Type 0} (lib : Libraries Value) : Type 0 where
  pub written :
      (e : GatewayEvent Value) (payload : List ℕ)
      → lib.to_vec e ≡ some payload
      → take 3 payload ≡ starts_e
  pub read :
      (e : GatewayEvent Value) (payload : List ℕ)
      → lib.to_vec e ≡ some payload
      → (v : Value) × (lib.from_slice payload ≡ some v) × (take 3 (lib.to_body v) ≡ starts_d)
  pub keyed :
      (secret : String) (message : List ℕ)
      → (code : List ℕ) × (lib.hmac secret message ≡ some code) × All IsByte code

third : List ℕ → ℕ
third (_ ∷ _ ∷ b ∷ _) = b
third _ = 0

starts-apart : starts_e ≢ starts_d
unfolding third
starts-apart h = omega (arith, ap third h)

prefixed-inj :
    (a b : List ℕ) → All IsByte a → All IsByte b → prefixed (some a) ≡ prefixed (some b) → a ≡ b
prefixed-inj a b h k e =
    let same : hex_encode a ≡ hex_encode b = cc e in
    sym (hex_decode-encode a h) ∙ ap hex_decode same ∙ hex_decode-encode b k

-- A receiver that computes the HMAC of the body of a request finds another signature than the one in
-- the header: for every event that can be written and every secret that is not empty, where the
-- libraries behave as documented and the HMAC of what was written and of the body is the same only if
-- the two are.
pub body-unsigned :
    {Value : Type 0} (lib : Libraries Value) (documented : Documented lib) (e : GatewayEvent Value)
    (payload : List ℕ) (wh : WebhookConfig) (secret : String)
    → lib.to_vec e ≡ some payload
    → wh.secret ≡ some secret
    → str_eq secret "" ≡ false
    → (lib.hmac secret payload ≡ lib.hmac secret (request_to lib payload wh).body
        → payload ≡ (request_to lib payload wh).body)
    → (request_to lib payload wh).signature
      ≢ prefixed (lib.hmac secret (request_to lib payload wh).body)
unfolding request_to signature_of
body-unsigned lib documented e payload wh secret w s nonempty distinct same =
    let (v, found, first) = documented.read e payload w in
    let body = lib.to_body v in
    let (a, code, a_bytes) = documented.keyed secret payload in
    let (b, other, b_bytes) = documented.keyed secret body in
    let equal : prefixed (some a) ≡ prefixed (some b) =
      rw (found, s, nonempty, code, other, request_to, signature_of) at same in
    let codes : a ≡ b = prefixed-inj a b a_bytes b_bytes equal in
    let unchanged : payload ≡ body =
      rw (found, request_to) at distinct (code ∙ ap some codes ∙ sym other) in
    starts-apart (sym (documented.written e payload w) ∙ ap (take 3) unchanged ∙ first)
