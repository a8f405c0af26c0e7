-- ===== src/Payment/Charge/Replies.antt =====
-- Which replies a charge leaves in the outbox.
use food_delivery_api.Common.{
  ℕ, ◌==◌, ==_refl, ◌≡◌, refl, not, Option, none, some, Bool, true, false, [], ◌∷◌, ◌++◌, any, ok,
  inl, inr, arith, Bool-cases, if◌then◌else◌,
}
use food_delivery_api.Messaging.Idempotent.{run_once}
use food_delivery_api.Payment.Charge.{
  PaymentDb, ProviderResult, ChargeWorkflowInput, OutboxRow, Reply, Reason, message, emit_reply,
  append, mark_processed, reply_of, charge, decide_charge, outcome_of, charge_workflow,
  payment_succeeded_reply, payment_failed_reply, payment_succeeded, payment_failed, declined_amount,
}

abbrev pub is_replied : ℕ → PaymentDb → Bool
is_replied order_id db = any (λ e. e == order_id) db.processed_events

abbrev pub reply_row : ChargeWorkflowInput → ProviderResult → OutboxRow
unfolding reply_of
reply_row input outcome = record {
  entry = reply_of input.order_id input.correlation_id outcome;
  tenant_id = input.tenant_id;
}

pub emit_reply-fresh :
    (input : ChargeWorkflowInput) (outcome : ProviderResult) (db : PaymentDb)
    → is_replied input.order_id db ≡ false
    → emit_reply input outcome db ≡ (
      ok tt,
      record {
        outbox = db.outbox ++ reply_row input outcome ∷ [];
        processed_events = input.order_id ∷ db.processed_events;
      },
    )
unfolding emit_reply append mark_processed run_once reply_of
emit_reply-fresh input outcome db fresh = ground arith

pub emit_reply-replied :
    (input : ChargeWorkflowInput) (outcome : ProviderResult) (db : PaymentDb)
    → is_replied input.order_id db ≡ true
    → emit_reply input outcome db ≡ (ok tt, db)
unfolding emit_reply append mark_processed run_once reply_of
emit_reply-replied input outcome db replied = ground arith

-- A second run of the activity for the same order, with any outcome, writes nothing and returns.
pub emit_reply_twice :
    (input : ChargeWorkflowInput) (first second : ProviderResult) (db : PaymentDb)
    → emit_reply input second (emit_reply input first db).1 ≡ (ok tt, (emit_reply input first db).1)
emit_reply_twice input first second db = elim (Bool-cases (is_replied input.order_id db)) [
  | inl replied ↦
      rw (emit_reply-replied input first db replied) (emit_reply-replied input second db replied)
  | inr fresh ↦
      rw (emit_reply-fresh input first db fresh)
        (emit_reply-replied input second _ (ground (arith, ==_refl input.order_id)))
]

-- What a provider is asked for an order: nothing where a signal came before the charge, and else
-- whether its total is the configured amount.
abbrev pub result_due : ℕ → ℕ → Option ProviderResult → ProviderResult
result_due fail_at_cents total_cents (some signalled) = signalled
result_due fail_at_cents total_cents none = record {
  is_ok = not (total_cents == fail_at_cents);
  reason = if total_cents == fail_at_cents then some (declined_amount total_cents) else none;
  pending = none;
}

-- The reply that tells a result.
abbrev pub reply_due : ℕ → Bool → Option Reason → Reply
reply_due order_id true reason = payment_succeeded order_id
reply_due order_id false (some reason) = payment_failed order_id reason
reply_due order_id false none = payment_failed order_id (message "payment declined")

reply_of-reply_due :
    (order_id correlation_id : ℕ) (is_ok : Bool) (reason : Option Reason) (pending : Option Bool)
    → reply_of order_id correlation_id
        (record { is_ok = is_ok; reason = reason; pending = pending })
      ≡ record {
        aggregate_id = order_id;
        reply = reply_due order_id is_ok reason;
        correlation_id = correlation_id;
      }
unfolding reply_of payment_succeeded_reply payment_failed_reply
reply_of-reply_due order_id correlation_id true reason pending = refl
reply_of-reply_due order_id correlation_id false none pending = refl
reply_of-reply_due order_id correlation_id false (some reason) pending = refl

outcome_of-result_due :
    (fail_at_cents total_cents : ℕ) (early late : Option ProviderResult)
    → outcome_of (charge fail_at_cents total_cents) early late
      ≡ result_due fail_at_cents total_cents early
unfolding charge decide_charge outcome_of
outcome_of-result_due fail_at_cents total_cents none late = ground arith
outcome_of-result_due fail_at_cents total_cents (some signalled) late = ground arith

-- The workflow of an order without a reply returns the last result that the provider signalled before
-- the charge was decided, or without one that the charge is declined exactly where the total is the
-- configured amount. It marks the order as replied and leaves exactly one new row, in the tenant of
-- the order: success where that result is ok, and else the failure with its reason, or with 'payment
-- declined' where it has none. A provider result that comes after the charge has no part in it.
pub charge_workflow-replies :
    (fail_at_cents : ℕ) (early late : Option ProviderResult) (input : ChargeWorkflowInput)
    (db : PaymentDb)
    → is_replied input.order_id db ≡ false
    → let due = result_due fail_at_cents input.total_cents early in
      let (result, db') = charge_workflow fail_at_cents early late input db in
      (result ≡ ok due)
      × (db' ≡ record {
        outbox =
            db.outbox
            ++ record {
              entry = record {
                aggregate_id = input.order_id;
                reply = reply_due input.order_id due.is_ok due.reason;
                correlation_id = input.correlation_id;
              };
              tenant_id = input.tenant_id;
            }
              ∷ [];
        processed_events = input.order_id ∷ db.processed_events;
      })
unfolding charge_workflow
charge_workflow-replies fail_at_cents early late input db fresh =
    let due = result_due fail_at_cents input.total_cents early in
    let same = outcome_of-result_due fail_at_cents input.total_cents early late in
    let row =
      reply_of-reply_due input.order_id input.correlation_id due.is_ok due.reason due.pending in
    let sent = emit_reply-fresh input due db fresh in
    (rw same (ground (arith, sent)), rw same (ground (arith, sent, row)))
