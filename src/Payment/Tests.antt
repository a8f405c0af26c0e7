-- ===== src/Payment/Tests.antt =====
-- Runs of the payment service.
use food_delivery_api.Common.{
  ℕ, ◌≡◌, refl, none, some, Bool, true, false, ◌||◌, List, [], ◌∷◌, ◌++◌, ok, err, ◌↔◌, arith,
}
use food_delivery_api.Common.Text.{text_eq}
use food_delivery_api.Common.Int.{pos}
use food_delivery_api.Payment.Charge.{
  PaymentDb, ProviderResult, ChargeWorkflowInput, charge_workflow, charge, outcome_of, message,
  decide_charge, payment_failed,
}
use food_delivery_api.Payment.Charge.Replies.{charge_workflow-replies, result_due}
use food_delivery_api.Payment.Gateway.{WorkflowService, already_started, completed, signalled}
use food_delivery_api.Payment.Webhook.{
  Crypto, WebhookVerificationInput, verify_webhook_signature, strip_prefix, signature_mismatch,
}
use food_delivery_api.Payment.Webhook.Genuine.{IsGenuine, verify_webhook_signature_iff}
use food_delivery_api.Payment.Webhook.Controller.{
  WebhookRequest, single, absent, verification_input,
}

abbrev input : ChargeWorkflowInput
input = record { order_id = 7; total_cents = 1500; correlation_id = 3; tenant_id = 1 }

abbrev empty : PaymentDb
empty = record { outbox = []; processed_events = [] }

abbrev accepted : ProviderResult
accepted = record { is_ok = true; reason = none; pending = none }

abbrev rejected : ProviderResult
rejected = record { is_ok = false; reason = some (message "card expired"); pending = none }

-- The early result decides, and the late one has no part.
charge_workflow-replies_example :
    ((charge_workflow 1500 (some rejected) (some accepted) input empty).0
      ≡ ok (result_due 1500 1500 (some rejected)))
    × ((charge_workflow 1500 (some rejected) (some accepted) input empty).1 ≡ record {
      outbox =
          []
          ++ record {
            entry = record {
              aggregate_id = 7;
              reply = payment_failed 7 (message "card expired");
              correlation_id = 3;
            };
            tenant_id = 1;
          }
            ∷ [];
      processed_events = 7 ∷ [];
    })
charge_workflow-replies_example =
    charge_workflow-replies 1500 (some rejected) (some accepted) input empty refl

-- A service whose workflows are closed with an accepted charge.
abbrev closed : WorkflowService (Unit {0})
closed = record {
  start = λ input t. (already_started, t);
  describe = λ order_id t. completed;
  result = λ order_id t. some accepted;
  signal = λ order_id result t. (signalled, t);
}

charges : outcome_of (charge 99 1500) none none ≡ accepted
unfolding outcome_of charge decide_charge
charges = refl

abbrev bytes_of : Bool → List ℕ
bytes_of true = 175 ∷ []
bytes_of false = 1 ∷ []

-- A clock of 1000 seconds, a hash that is the text itself, and two texts that the reading of bytes
-- takes for one byte.
abbrev crypto : Crypto
crypto = record {
  number = λ text. some (record { parts = pos 1200; parts_of_one_minus_one = 0 });
  from_hex = λ text. bytes_of (text_eq text "af" || text_eq text "1200.{}");
  hmac_sha256 = λ secret text. text;
}

abbrev signed : WebhookVerificationInput
signed = record {
  secret = "s";
  raw_body = "{}";
  signature_header = some "sha256=af";
  timestamp_header = some "1200";
  now_sec = 1000;
  tolerance_sec = none;
}

genuine : verify_webhook_signature crypto signed ≡ ok tt
unfolding verify_webhook_signature
genuine = refl

-- The signature of another body.
forged :
    verify_webhook_signature crypto (record signed { raw_body = "[]" }) ≡ err signature_mismatch
unfolding verify_webhook_signature
forged = refl

without_prefix : (strip_prefix "sha256=af" ≡ "af") × (strip_prefix "af" ≡ "af")
without_prefix = (refl, refl)

verify_webhook_signature_iff_example :
    (verify_webhook_signature crypto signed ≡ ok tt) ↔ IsGenuine crypto signed
verify_webhook_signature_iff_example = verify_webhook_signature_iff crypto signed

abbrev unsigned : WebhookRequest
unsigned = record {
  raw_body = some "{}";
  signature = absent;
  timestamp = single "1200";
  order_id = 7;
  is_ok = true;
  reason = none;
}

unsigned_fake : IsGenuine crypto (verification_input "s" 1000 unsigned) → ⊥
unsigned_fake g = ground (arith, g.has_signature)
