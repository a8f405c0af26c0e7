-- ===== src/Payment/Webhook.antt =====
-- The webhook of the payment provider: apps/payment/src/interface/http/hmac-webhook-verifier.ts. The
-- reading of numbers and of hexadecimal bytes and the keyed hash belong to the platform and are
-- arguments.
pub mod Controller
pub mod Genuine
use Prim.Native.String.{slice, len}
use text.Mathlib.Text.{starts_with}
use food_delivery_api.Common.{
  ℕ, suc, ◌+◌, ◌-◌, ◌*◌, ◌≡◌, refl, ◌↔◌, ap, inl, inr, Option, none, some, Bool, true, false, not,
  ◌&&◌, ◌==◌, List, [], ◌∷◌, String, Result, ok, err, Action, ltb, Option-cases, Result-cases,
  arith, if◌then◌else◌,
}
use food_delivery_api.Common.Int.{ℤ, pos, negsuc}
use food_delivery_api.Common.Text.{is_empty, concat}
use food_delivery_api.Payment.Charge.{PaymentDb, PaymentError, ProviderResult, Reason}
use food_delivery_api.Payment.Gateway.{WorkflowService, signal_provider_result}

-- A finite number: a whole count of parts of a size. Every double is one.
pub record Finite : Type 0 where
  pub parts : ℤ
  pub parts_of_one_minus_one : ℕ

-- `Number(text)`, where `none` is not finite; `Buffer.from(text, 'hex')`; `createHmac('sha256',
-- secret).update(text).digest('hex')`.
pub record Crypto : Type 0 where
  pub number : String → Option Finite
  pub from_hex : String → List ℕ
  pub hmac_sha256 : String → String → String

-- `WebhookVerificationInput`; the defaults of the clock and the tolerance are the caller's.
pub record WebhookVerificationInput : Type 0 where
  pub secret : String
  pub raw_body : String
  pub signature_header : Option String
  pub timestamp_header : Option String
  pub now_sec : ℕ
  pub tolerance_sec : Option ℕ

-- The reasons of a refusal.
pub data Refusal : Type 0 where
  missing_signature_header missing_timestamp_header invalid_timestamp_header : Refusal
  timestamp_outside_replay_window signature_mismatch : Refusal

abbrev pub signed_payload : String → String → String
signed_payload timestamp raw_body = concat timestamp (concat "." raw_body)

abbrev pub strip_prefix : String → String
strip_prefix signature =
    if starts_with signature "sha256=" then slice signature 7 (len signature) else signature

abbrev pub same_bytes : List ℕ → List ℕ → Bool
same_bytes [] [] = true
same_bytes [] (b ∷ bs) = false
same_bytes (a ∷ more) [] = false
same_bytes (a ∷ more) (b ∷ bs) = (a == b) && same_bytes more bs

abbrev pub no_bytes : List ℕ → Bool
no_bytes [] = true
no_bytes (b ∷ bs) = false

abbrev pub tolerance_or_default : Option ℕ → ℕ
tolerance_or_default none = 300
tolerance_or_default (some n) = n

-- `Math.abs(a - z)` for a whole `a`.
abbrev pub distance : ℕ → ℤ → ℕ
distance a (pos n) = (a - n) + (n - a)
distance a (negsuc n) = a + suc n

-- `Math.abs(now - timestamp) > tolerance`
abbrev pub is_outside : ℕ → ℕ → Finite → Bool
is_outside now tolerance t =
    ltb (tolerance * suc t.parts_of_one_minus_one)
      (distance (now * suc t.parts_of_one_minus_one) t.parts)

-- `!header` is a header that is absent or empty.
abbrev pub present : Option String → Option String
present none = none
present (some s) = if is_empty s then none else some s

module _ (crypto : Crypto) where
  unfoldable pub safe_equal_hex : String → String → Bool
  safe_equal_hex a b =
      not (no_bytes (crypto.from_hex a)) && same_bytes (crypto.from_hex a) (crypto.from_hex b)

  unfoldable pub check_signature :
      WebhookVerificationInput → String → String → Result Refusal (Unit {0})
  unfolding safe_equal_hex
  check_signature input signature timestamp =
      if safe_equal_hex (crypto.hmac_sha256 input.secret (signed_payload timestamp input.raw_body))
        (strip_prefix signature)
      then ok tt
      else err signature_mismatch

  unfoldable pub check_time :
      WebhookVerificationInput → String → String → Option Finite → Result Refusal (Unit {0})
  unfolding check_signature
  check_time input signature timestamp none = err invalid_timestamp_header
  check_time input signature timestamp (some t) =
      if is_outside input.now_sec (tolerance_or_default input.tolerance_sec) t
      then err timestamp_outside_replay_window
      else check_signature input signature timestamp

  unfoldable pub check_headers :
      WebhookVerificationInput → Option String → Option String → Result Refusal (Unit {0})
  unfolding check_time
  check_headers input none timestamp = err missing_signature_header
  check_headers input (some signature) none = err missing_timestamp_header
  check_headers input (some signature) (some timestamp) =
      check_time input signature timestamp (crypto.number timestamp)

  unfoldable pub verify_webhook_signature : WebhookVerificationInput → Result Refusal (Unit {0})
  unfolding check_headers
  verify_webhook_signature input =
      check_headers input (present input.signature_header) (present input.timestamp_header)
