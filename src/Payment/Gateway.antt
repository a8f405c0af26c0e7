-- ===== src/Payment/Gateway.antt =====
-- The commands and signals that reach the charge workflows:
-- apps/payment/src/infrastructure/temporal/temporal-workflow-gateway.adapter.ts and
-- apps/payment/src/interface/messaging/payment-command.consumer.ts. The workflow service is an
-- argument; the log and the trace are left out.
use food_delivery_api.Common.{
  ℕ, ◌≡◌, Option, none, some, [], ◌∷◌, ◌++◌, String, Result, ok, err, Action, pure, throw, catch,
  run_in_transaction, arith, if◌then◌else◌,
}
use food_delivery_api.Common.Text.{text_eq}
use food_delivery_api.Payment.Charge.{
  PaymentDb, PaymentError, unavailable, ProviderResult, ChargeWorkflowInput, append, reply_of,
}
use food_delivery_api.Payment.Charge.Replies.{reply_row}

-- How `client.start` ends.
pub data StartOutcome : Type 0 where
  started already_started start_failed : StartOutcome

-- What `handle.describe` says: the status COMPLETED, another status, or an error.
pub data Description : Type 0 where
  completed other_status describe_failed : Description

-- How `handle.signal` ends.
pub data SignalOutcome : Type 0 where
  signalled workflow_not_found signal_failed : SignalOutcome

-- The workflow service on its state `T`; the workflow of an order has the id `charge-<order>`.
pub record WorkflowService {ℓ} (T : Type ℓ) : Type ℓ where
  pub start : ChargeWorkflowInput → T → StartOutcome × T
  pub describe : ℕ → T → Description
  pub result : ℕ → T → Option ProviderResult
  pub signal : ℕ → ProviderResult → T → SignalOutcome × T

abbrev pub GatewayAction {ℓ} : Type ℓ → Type 0 → Type ℓ
GatewayAction T A = Action (T × PaymentDb) PaymentError A

abbrev pub on_db {ℓ} :
    {T : Type ℓ} → Action PaymentDb PaymentError (Unit {0}) → GatewayAction T (Unit {0})
on_db m (t, db) = ((m db).0, (t, (m db).1))

module _ {ℓ} {T : Type ℓ} (service : WorkflowService T) where
  -- An error while the reply is read or appended is logged and forgotten.
  unfoldable pub append_recovered :
      ChargeWorkflowInput → Option ProviderResult → GatewayAction T (Unit {0})
  unfolding append reply_of
  append_recovered input none = pure tt
  append_recovered input (some result) =
      catch
        (on_db (
          run_in_transaction
            (append input.tenant_id (reply_of input.order_id input.correlation_id result))))
        (λ error. pure tt)

  unfoldable pub recover_described : ChargeWorkflowInput → Description → GatewayAction T (Unit {0})
  unfolding append_recovered
  recover_described input describe_failed s = pure tt s
  recover_described input other_status s = pure tt s
  recover_described input completed s = append_recovered input (service.result input.order_id s.0) s

  unfoldable pub recover_reply_for_duplicate_start :
      ChargeWorkflowInput → GatewayAction T (Unit {0})
  unfolding recover_described
  recover_reply_for_duplicate_start input s =
      recover_described input (service.describe input.order_id s.0) s

  unfoldable pub after_start : ChargeWorkflowInput → StartOutcome → GatewayAction T (Unit {0})
  unfolding recover_reply_for_duplicate_start
  after_start input started = pure tt
  after_start input already_started = recover_reply_for_duplicate_start input
  after_start input start_failed = throw unavailable

  unfoldable pub start_charge : ChargeWorkflowInput → GatewayAction T (Unit {0})
  unfolding after_start
  start_charge input (t, db) =
      after_start input (service.start input t).0 ((service.start input t).1, db)

  abbrev after_signal : SignalOutcome → Result PaymentError (Unit {0})
  after_signal signalled = ok tt
  after_signal workflow_not_found = ok tt
  after_signal signal_failed = err unavailable

  unfoldable pub signal_provider_result : ℕ → ProviderResult → GatewayAction T (Unit {0})
  signal_provider_result order_id result (t, db) = (
    after_signal (service.signal order_id result t).0,
    ((service.signal order_id result t).1, db),
  )

  -- `handleCommand` of the consumer; `event_type`, `correlation_id` and `tenant_id` are read from
  -- the envelope.
  unfoldable pub handle_command : String → ChargeWorkflowInput → GatewayAction T (Unit {0})
  unfolding start_charge
  handle_command event_type input =
      if text_eq event_type "ChargePayment" then start_charge input else pure tt

  -- A further command for an order whose workflow is closed appends the reply of that workflow's
  -- result once more, returns, and marks no event.
  pub start_charge-replays :
      (input : ChargeWorkflowInput) (outcome : ProviderResult) (t : T) (db : PaymentDb)
      → (service.start input t).0 ≡ already_started
      → service.describe input.order_id (service.start input t).1 ≡ completed
      → service.result input.order_id (service.start input t).1 ≡ some outcome
      → start_charge input (t, db) ≡ (
        ok tt,
        (
          (service.start input t).1,
          record db { outbox = db.outbox ++ reply_row input outcome ∷ [] },
        ),
      )
  unfolding start_charge after_start recover_reply_for_duplicate_start recover_described
      append_recovered append reply_of
  start_charge-replays input outcome t db again closed result = ground arith
