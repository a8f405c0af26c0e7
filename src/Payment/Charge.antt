-- ===== src/Payment/Charge.antt =====
-- The charge of an order, from the decision to the reply:
-- apps/payment/src/application/charge/charge-decision.ts, src/activities/charge.activity.ts,
-- src/activities/emit-reply.activity.ts, src/workflows/charge-workflow.ts and
-- src/interface/messaging/payment-reply-factory.ts of apps/payment, with the tables it writes.
pub mod Replies
use food_delivery_api.Common.{
  ℕ, ◌==◌, ◌||◌, Option, none, some, Bool, true, false, List, [], ◌∷◌, ◌++◌, String, any, Result,
  ok, err, Action, ◌>>=◌, ◌>>◌, pure, throw_if, modify, gets, run_in_transaction, if◌then◌else◌,
}
use food_delivery_api.Messaging.Idempotent.{ProcessedEventStore, run_once}

-- The reasons of a decline: the one with the amount, and any other text.
pub data Reason : Type 0 where
  declined_amount : ℕ → Reason
  message : String → Reason

-- `ProviderResult`
pub record ProviderResult : Type 0 where
  pub is_ok : Bool
  pub reason : Option Reason
  pub pending : Option Bool

-- `ChargeDecision`
pub record ChargeDecision : Type 0 where
  pub is_ok : Bool
  pub reason : Option Reason

unfoldable pub decide_charge : ℕ → ℕ → ChargeDecision
decide_charge total_cents fail_at_cents =
    if total_cents == fail_at_cents
    then record { is_ok = false; reason = some (declined_amount total_cents) }
    else record { is_ok = true; reason = none }

-- The activity `charge` that `createChargeActivity` makes.
unfoldable pub charge : ℕ → ℕ → ProviderResult
unfolding decide_charge
charge fail_at_cents total_cents =
    let decision = decide_charge total_cents fail_at_cents in
    record { is_ok = decision.is_ok; reason = decision.reason; pending = none }

-- The replies, as the event types with their payloads.
pub data Reply : Type 0 where
  payment_succeeded : ℕ → Reply
  payment_failed : ℕ → Reason → Reply

-- `OutboxCommandEntry`, on the topic of the replies.
pub record ReplyEntry : Type 0 where
  pub aggregate_id : ℕ
  pub reply : Reply
  pub correlation_id : ℕ

unfoldable pub payment_succeeded_reply : ℕ → ℕ → ReplyEntry
payment_succeeded_reply order_id correlation_id = record {
  aggregate_id = order_id;
  reply = payment_succeeded order_id;
  correlation_id = correlation_id;
}

unfoldable pub payment_failed_reply : ℕ → Reason → ℕ → ReplyEntry
payment_failed_reply order_id reason correlation_id = record {
  aggregate_id = order_id;
  reply = payment_failed order_id reason;
  correlation_id = correlation_id;
}

-- A row of the outbox: the entry and its tenant.
pub record OutboxRow : Type 0 where
  pub entry : ReplyEntry
  pub tenant_id : ℕ

-- The tables of the service.
pub record PaymentDb : Type 0 where
  pub outbox : List OutboxRow
  pub processed_events : List ℕ

-- The error of a second insert of one event, and any other.
pub data PaymentError : Type 0 where
  duplicate_event : ℕ → PaymentError
  unavailable : PaymentError

unfoldable pub append : ℕ → ReplyEntry → Action PaymentDb PaymentError (Unit {0})
append tenant_id entry =
    modify
      λ db. record db { outbox = db.outbox ++ record { entry = entry; tenant_id = tenant_id } ∷ [] }

unfoldable pub mark_processed : ℕ → Action PaymentDb PaymentError (Unit {0})
mark_processed event_id = do
  seen ← gets (λ db. any (λ e. e == event_id) db.processed_events)
  throw_if seen (duplicate_event event_id)
  modify λ db. record db { processed_events = event_id ∷ db.processed_events }

abbrev pub is_duplicate : PaymentError → Bool
is_duplicate (duplicate_event event_id) = true
is_duplicate unavailable = false

abbrev pub processed_event_store : ProcessedEventStore PaymentDb PaymentError
unfolding mark_processed
processed_event_store = record {
  mark_processed = mark_processed;
  is_duplicate = is_duplicate;
  has = λ db event_id. any (λ e. e == event_id) db.processed_events;
}

-- `ChargeWorkflowInput`, without the trace.
pub record ChargeWorkflowInput : Type 0 where
  pub order_id : ℕ
  pub total_cents : ℕ
  pub correlation_id : ℕ
  pub tenant_id : ℕ

abbrev reason_or_default : Option Reason → Reason
reason_or_default none = message "payment declined"
reason_or_default (some r) = r

-- The reply that a result becomes; the activity and the gateway build it alike.
unfoldable pub reply_of : ℕ → ℕ → ProviderResult → ReplyEntry
unfolding payment_succeeded_reply payment_failed_reply
reply_of order_id correlation_id result =
    if result.is_ok
    then payment_succeeded_reply order_id correlation_id
    else payment_failed_reply order_id (reason_or_default result.reason) correlation_id

-- The activity `emitReply`, in its transaction.
unfoldable pub emit_reply :
    ChargeWorkflowInput → ProviderResult → Action PaymentDb PaymentError (Unit {0})
unfolding reply_of append mark_processed run_once
emit_reply input outcome =
    run_in_transaction (
      run_once processed_event_store input.order_id
        (append input.tenant_id (reply_of input.order_id input.correlation_id outcome)))
    >> pure tt

-- What the signal handler holds once `condition` ends: a provider result that came before the wait,
-- or else one that came within the reconcile window. The wait is entered only if `pending` is set.
abbrev or_else : Option ProviderResult → Option ProviderResult → Option ProviderResult
or_else none late = late
or_else (some r) late = some r

abbrev is_set : Option Bool → Bool
is_set none = false
is_set (some b) = b

abbrev result_or : ProviderResult → Option ProviderResult → ProviderResult
result_or decided none = decided
result_or decided (some r) = r

-- `reconciled ?? decided`
unfoldable pub outcome_of :
    ProviderResult → Option ProviderResult → Option ProviderResult → ProviderResult
outcome_of decided early late =
    result_or decided (if is_set decided.pending then or_else early late else early)

-- `early` is the last signal before the charge was decided, `late` the first one after it.
unfoldable pub charge_workflow :
    ℕ
    → Option ProviderResult
    → Option ProviderResult
    → ChargeWorkflowInput
    → Action PaymentDb PaymentError ProviderResult
unfolding charge outcome_of emit_reply
charge_workflow fail_at_cents early late input =
    let outcome = outcome_of (charge fail_at_cents input.total_cents) early late in
    emit_reply input outcome >> pure outcome
