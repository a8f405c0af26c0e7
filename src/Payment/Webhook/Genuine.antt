-- ===== src/Payment/Webhook/Genuine.antt =====
-- Which webhooks are accepted.
use Prim.Native.Nat.{◌≤◌}
use Prim.Native.String.{slice, len}
use text.Mathlib.Text.{starts_with}
use text.Mathlib.TextEquality.{starts_with_iff}
use text.Mathlib.TextPositions.{len-append, slice-append_right}
use food_delivery_api.Common.{
  ℕ, suc, ◌+◌, ◌*◌, ◌≡◌, refl, ◌↔◌, ◌⊎◌, sym, ap, ◌∙◌, inl, inr, Option, none, some, true, false,
  ==_refl, List, [], ◌∷◌, String, ok, ltb, Option-cases, Bool-cases, List-cases, arith,
}
use food_delivery_api.Common.Int.{ℤ, pos, negsuc}
use food_delivery_api.Common.Text.{is_empty, concat}
use food_delivery_api.Payment.Webhook.{
  Finite, Crypto, WebhookVerificationInput, same_bytes, strip_prefix, distance, present,
  tolerance_or_default, safe_equal_hex, check_signature, check_time, check_headers,
  verify_webhook_signature,
}

-- A whole count of parts of one `size`-th differs from `now` by no more than the tolerance.
abbrev pub IsWithin : ℕ → ℕ → ℕ → ℤ → Type 0
IsWithin now tolerance size (pos n) =
    (now * size ≤ n + tolerance * size) × (n ≤ now * size + tolerance * size)
IsWithin now tolerance size (negsuc n) = now * size + suc n ≤ tolerance * size

-- The given tolerance, or 300 seconds.
abbrev pub IsTolerance : Option ℕ → ℕ → Type 0
IsTolerance none tolerance = tolerance ≡ 300
IsTolerance (some given) tolerance = tolerance ≡ given

-- What stands behind the prefix of a signature, or the signature itself where it has no such prefix.
abbrev pub IsHexOf : String → String → Type 0
IsHexOf signature hex =
    (signature ≡ concat "sha256=" hex)
    ⊎ ((starts_with signature "sha256=" ≡ false) × (hex ≡ signature))

-- What a genuine and fresh webhook carries.
pub record IsGenuine (crypto : Crypto) (input : WebhookVerificationInput) : Type 0 where
  pub signature : String
  pub timestamp : String
  pub time : Finite
  pub tolerance : ℕ
  pub byte : ℕ
  pub bytes : List ℕ
  pub has_signature : input.signature_header ≡ some signature
  pub signature_named : is_empty signature ≡ false
  pub has_timestamp : input.timestamp_header ≡ some timestamp
  pub timestamp_named : is_empty timestamp ≡ false
  pub is_number : crypto.number timestamp ≡ some time
  pub is_tolerance : IsTolerance input.tolerance_sec tolerance
  pub is_fresh : IsWithin input.now_sec tolerance (suc time.parts_of_one_minus_one) time.parts
  pub has_hash :
      crypto.from_hex
        (crypto.hmac_sha256 input.secret (concat timestamp (concat "." input.raw_body)))
      ≡ byte ∷ bytes
  pub hex : String
  pub is_hex : IsHexOf signature hex
  pub is_signed : crypto.from_hex hex ≡ byte ∷ bytes

distance-IsWithin :
    (now tolerance size : ℕ) (z : ℤ)
    → (ltb (tolerance * size) (distance (now * size) z) ≡ false) ↔ IsWithin now tolerance size z
distance-IsWithin now tolerance size (pos n) =
    (λ h. (ground (arith, h), ground (arith, h)), λ h. ground (arith, h.0, h.1))
distance-IsWithin now tolerance size (negsuc n) = (λ h. ground (arith, h), λ h. ground (arith, h))

tolerance_or_default-IsTolerance :
    (given : Option ℕ) (tolerance : ℕ)
    → (tolerance ≡ tolerance_or_default given) ↔ IsTolerance given tolerance
tolerance_or_default-IsTolerance none tolerance = (λ h. h, λ h. h)
tolerance_or_default-IsTolerance (some given) tolerance = (λ h. h, λ h. h)

same_bytes-same : (a b : List ℕ) → same_bytes a b ≡ true → a ≡ b
same_bytes-same [] [] h = refl
same_bytes-same [] (y ∷ b) h = ground arith
same_bytes-same (x ∷ a) [] h = ground arith
same_bytes-same (x ∷ a) (y ∷ b) h = ground (arith, same_bytes-same a b)

same_bytes_refl : (a : List ℕ) → same_bytes a a ≡ true
same_bytes_refl [] = refl
same_bytes_refl (x ∷ a) = ground (arith, ==_refl x, same_bytes_refl a)

present-some :
    (header : Option String) (s : String)
    → (present header ≡ some s) ↔ ((header ≡ some s) × (is_empty s ≡ false))
present-some none s = (λ h. ground (arith, h), λ h. ground (arith, h))
present-some (some t) s = (
  λ h. elim (Bool-cases (is_empty t)) [
    | inl e ↦ ground (arith, h, e)
    | inr e ↦ (ground (arith, h, e), ground (arith, h, e))
  ],
  λ h. ground (arith, h),
)

slice_behind :
    (rest : String) → slice (concat "sha256=" rest) 7 (len (concat "sha256=" rest)) ≡ rest
slice_behind rest =
    ap (slice (concat "sha256=" rest) 7) (len-append "sha256=" rest)
    ∙ slice-append_right "sha256=" rest

strip_prefix-IsHexOf : (signature : String) → IsHexOf signature (strip_prefix signature)
strip_prefix-IsHexOf signature = elim (Bool-cases (starts_with signature "sha256=")) [
  | inl h ↦
      let (rest, same) = (starts_with_iff signature "sha256=").0 h in
      let stripped : strip_prefix signature ≡ rest =
        rw h (ap (λ s. slice s 7 (len s)) (sym same) ∙ slice_behind rest) in
      inl (sym same ∙ ap (concat "sha256=") (sym stripped))
  | inr h ↦ inr (h, rw h refl)
]

strip_prefix-same : (signature hex : String) → IsHexOf signature hex → strip_prefix signature ≡ hex
strip_prefix-same signature hex (inl same) =
    let h = (starts_with_iff signature "sha256=").1 (hex, sym same) in
    rw h (ap (λ s. slice s 7 (len s)) same ∙ slice_behind hex)
strip_prefix-same signature hex (inr (h, same)) = rw h (sym same)

module _ (crypto : Crypto) where
  safe_equal_hex-same :
      (a b : String)
      → safe_equal_hex crypto a b ≡ true
      → (byte : ℕ) × (bytes : List ℕ) × (crypto.from_hex a ≡ byte ∷ bytes)
        × (crypto.from_hex b ≡ byte ∷ bytes)
  unfolding safe_equal_hex
  safe_equal_hex-same a b h = elim (List-cases (crypto.from_hex a)) [
    | inl e ↦ ground (arith, e)
    | inr (byte, bytes, e) ↦
        let same = same_bytes-same (crypto.from_hex a) (crypto.from_hex b) (ground arith) in
        (byte, bytes, e, sym same ∙ e)
  ]

  checked-IsGenuine :
      (input : WebhookVerificationInput)
      → verify_webhook_signature crypto input ≡ ok tt
      → IsGenuine crypto input
  unfolding verify_webhook_signature check_headers check_time check_signature
  checked-IsGenuine input h = elim (Option-cases (present input.signature_header)) [
    | inl e ↦ ground (arith, e)
    | inr (signature, e) ↦ elim (Option-cases (present input.timestamp_header)) [
      | inl e1 ↦ ground (arith, e, e1)
      | inr (timestamp, e1) ↦ elim (Option-cases (crypto.number timestamp)) [
        | inl infinite ↦ ground (arith, e, e1, infinite)
        | inr (time, is_number) ↦
            let (has_signature, signature_named) =
              (present-some input.signature_header signature).0 e in
            let (has_timestamp, timestamp_named) =
              (present-some input.timestamp_header timestamp).0 e1 in
            let (byte, bytes, has_hash, is_signed) =
              safe_equal_hex-same
                (crypto.hmac_sha256 input.secret (concat timestamp (concat "." input.raw_body)))
                (strip_prefix signature) (ground (arith, e, e1, is_number)) in
            record {
              signature = signature;
              timestamp = timestamp;
              time = time;
              tolerance = tolerance_or_default input.tolerance_sec;
              byte = byte;
              bytes = bytes;
              has_signature = has_signature;
              signature_named = signature_named;
              has_timestamp = has_timestamp;
              timestamp_named = timestamp_named;
              is_number = is_number;
              is_tolerance = (tolerance_or_default-IsTolerance input.tolerance_sec _).0 refl;
              is_fresh =
                  (distance-IsWithin input.now_sec (tolerance_or_default input.tolerance_sec)
                      (suc time.parts_of_one_minus_one) time.parts).0
                    (ground (arith, e, e1, is_number));
              has_hash = has_hash;
              hex = strip_prefix signature;
              is_hex = strip_prefix-IsHexOf signature;
              is_signed = is_signed;
            }
      ]
    ]
  ]

  checked_of_genuine :
      (input : WebhookVerificationInput)
      → IsGenuine crypto input
      → verify_webhook_signature crypto input ≡ ok tt
  unfolding verify_webhook_signature check_headers check_time check_signature safe_equal_hex
  checked_of_genuine input g =
      let e =
        (present-some input.signature_header g.signature).1 (g.has_signature, g.signature_named) in
      let e1 =
        (present-some input.timestamp_header g.timestamp).1 (g.has_timestamp, g.timestamp_named) in
      let same =
        (tolerance_or_default-IsTolerance input.tolerance_sec g.tolerance).1 g.is_tolerance in
      let fresh =
        (distance-IsWithin input.now_sec g.tolerance (suc g.time.parts_of_one_minus_one)
            g.time.parts).1
          g.is_fresh in
      rw (e, e1)
        (ground (
          arith,
          g.is_number,
          same,
          fresh,
          g.has_hash,
          g.is_signed,
          strip_prefix-same g.signature g.hex g.is_hex,
          same_bytes_refl (g.byte ∷ g.bytes),
        ))

  -- A webhook is accepted exactly if it carries both headers, its timestamp is a number that differs
  -- from the clock by no more than the tolerance, and the hexadecimal bytes that the platform reads
  -- from its signature, without the prefix 'sha256=' if it has that, are those of the keyed hash of the timestamp, a dot and
  -- the body, of which there is at least one.
  pub verify_webhook_signature_iff :
      (input : WebhookVerificationInput)
      → (verify_webhook_signature crypto input ≡ ok tt) ↔ IsGenuine crypto input
  verify_webhook_signature_iff input = (checked-IsGenuine input, checked_of_genuine input)
