-- ===== src/Payment/Webhook/Controller.antt =====
-- The controller of the webhook: apps/payment/src/interface/http/payment-webhook.controller.ts.
use food_delivery_api.Common.{
  ℕ, ◌≡◌, ap, inl, inr, Option, none, some, Bool, List, [], ◌∷◌, String, Result, ok, err, Action,
  Result-cases,
}
use food_delivery_api.Payment.Charge.{PaymentDb, PaymentError, ProviderResult, Reason}
use food_delivery_api.Payment.Gateway.{WorkflowService, signal_provider_result}
use food_delivery_api.Payment.Webhook.{
  Crypto, WebhookVerificationInput, Refusal, verify_webhook_signature,
}
use food_delivery_api.Payment.Webhook.Genuine.{IsGenuine, verify_webhook_signature_iff}

-- `req.headers[name]`: a text, several, or `undefined`.
pub data HeaderValue : Type 0 where
  absent : HeaderValue
  single : String → HeaderValue
  several : List String → HeaderValue

-- `headerValue`
abbrev pub header_value : HeaderValue → Option String
header_value absent = none
header_value (single s) = some s
header_value (several []) = none
header_value (several (s ∷ more)) = some s

-- A request: its raw body, the two headers, and the body that was parsed from it.
pub record WebhookRequest : Type 0 where
  pub raw_body : Option String
  pub signature : HeaderValue
  pub timestamp : HeaderValue
  pub order_id : ℕ
  pub is_ok : Bool
  pub reason : Option Reason

-- How the controller answers: 200, or 401, or an error of the workflow service.
pub data WebhookError : Type 0 where
  unauthorized : WebhookError
  gateway_error : PaymentError → WebhookError

abbrev text_or_empty : Option String → String
text_or_empty none = ""
text_or_empty (some s) = s

abbrev pub verification_input : String → ℕ → WebhookRequest → WebhookVerificationInput
verification_input secret now_sec request = record {
  secret = secret;
  raw_body = text_or_empty request.raw_body;
  signature_header = header_value request.signature;
  timestamp_header = header_value request.timestamp;
  now_sec = now_sec;
  tolerance_sec = none;
}

abbrev pub provider_result_of : WebhookRequest → ProviderResult
provider_result_of request = record {
  is_ok = request.is_ok;
  reason = request.reason;
  pending = none;
}

module _ {ℓ} {T : Type ℓ} (crypto : Crypto) (service : WorkflowService T) (secret : String)
    (now_sec : ℕ) where
  abbrev answered :
      Result PaymentError (Unit {0}) × (T × PaymentDb)
      → Result WebhookError (Unit {0}) × (T × PaymentDb)
  answered (ok a, s) = (ok a, s)
  answered (err e, s) = (err (gateway_error e), s)

  unfoldable pub after_verification :
      WebhookRequest → Result Refusal (Unit {0}) → Action (T × PaymentDb) WebhookError (Unit {0})
  unfolding signal_provider_result
  after_verification request (err refusal) s = (err unauthorized, s)
  after_verification request (ok a) s =
      answered (signal_provider_result service request.order_id (provider_result_of request) s)

  unfoldable pub handle_webhook : WebhookRequest → Action (T × PaymentDb) WebhookError (Unit {0})
  unfolding after_verification verify_webhook_signature
  handle_webhook request =
      after_verification request
        (verify_webhook_signature crypto (verification_input secret now_sec request))

  -- A webhook that is not genuine is answered with 401, and neither the workflow service nor a table
  -- changes.
  pub handle_webhook-refused :
      (request : WebhookRequest) (s : T × PaymentDb)
      → (IsGenuine crypto (verification_input secret now_sec request) → ⊥)
      → handle_webhook request s ≡ (err unauthorized, s)
  unfolding handle_webhook after_verification
  handle_webhook-refused request s fake =
      elim (Result-cases
        (verify_webhook_signature crypto (verification_input secret now_sec request))) [
          | inl (done, h) ↦
              elim (fake (
                (verify_webhook_signature_iff crypto (verification_input secret now_sec request)).0
                  h)) [ ]
          | inr (refusal, h) ↦ ap (λ r. after_verification request r s) h
        ]
