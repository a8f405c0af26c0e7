-- ===== src/Order/Replies/Ends.antt =====
-- Every saga that starts in step with its order ends, whatever the two services answer.
use food_delivery_api.Common.{ℕ, ◌≡◌, ap, ◌∙◌, any, Bool, true, false, ◌&&◌, ◌==◌, if◌then◌else◌}
use food_delivery_api.Order.SagaState.{SagaState}
use food_delivery_api.Order.Store.{OrderDb}
use food_delivery_api.Order.Replies.{InventoryReply, PaymentReply}
use food_delivery_api.Order.Replies.Runs.{
  Stands, Stepped, is_marked, any-append_one, after_inventory, after_payment,
}
use food_delivery_api.Order.Replies.Advance.{
  reserved-Stepped, refused-Stepped, released-Stepped, paid-Stepped, declined-Stepped,
}

-- The ids of the events of a run, each different from the others.
pub record Events : Type 0 where
  pub first : ℕ
  pub second : ℕ
  pub third : ℕ
  pub first_second : (first == second) ≡ false
  pub first_third : (first == third) ≡ false
  pub second_third : (second == third) ≡ false

-- No event of the run has been processed.
pub record AreNew (events : Events) (db : OrderDb) : Type 0 where
  pub first_new : is_marked events.first db ≡ false
  pub second_new : is_marked events.second db ≡ false
  pub third_new : is_marked events.third db ≡ false

module _ (t i correlation_id now : ℕ) where
  -- The replies of a run: whether the inventory service reserves the stock, and then whether the
  -- payment service charges; a declined charge is followed by the reply to the release.
  abbrev pub replied : Bool → Bool → Events → OrderDb → OrderDb
  replied false charged events db =
      after_inventory t i correlation_id now InventoryReply.stock_reservation_failed events.first db
  replied true true events db =
      after_payment t i correlation_id now PaymentReply.payment_succeeded events.second
        (after_inventory t i correlation_id now InventoryReply.stock_reserved events.first db)
  replied true false events db =
      after_inventory t i correlation_id now InventoryReply.stock_released events.third (
        after_payment t i correlation_id now PaymentReply.payment_failed events.second
          (after_inventory t i correlation_id now InventoryReply.stock_reserved events.first db))

  still_new :
      (event other : ℕ) (before after : OrderDb) (state : SagaState)
      → Stepped t i correlation_id now before after other state
      → (other == event) ≡ false
      → is_marked event before ≡ false
      → is_marked event after ≡ false
  still_new event other before after state step d h =
      ap (any (λ e. e == event)) step.marks ∙ any-append_one event other before.processed_events d h

  -- From a started saga whose order is pending, the replies of the services bring the saga to
  -- COMPLETED and the order to CONFIRMED if the stock is reserved and the charge succeeds, and
  -- otherwise both to CANCELLED, where the events are new and different.
  pub replied-Stands :
      (reserved charged : Bool) (events : Events) (db : OrderDb)
      → AreNew events db
      → Stands t i db SagaState.started
      → Stands t i
          (replied reserved charged events db)
          (if reserved && charged then SagaState.completed else SagaState.cancelled)
  replied-Stands false charged events db new s =
      (refused-Stepped t i correlation_id now events.first db s new.first_new).stands
  replied-Stands true true events db new s =
      let one = reserved-Stepped t i correlation_id now events.first db s new.first_new in
      (paid-Stepped t i correlation_id now events.second _ one.stands
        (still_new events.second events.first db _ _ one events.first_second new.second_new)).stands
  replied-Stands true false events db new s =
      let one = reserved-Stepped t i correlation_id now events.first db s new.first_new in
      let two =
        declined-Stepped t i correlation_id now events.second _ one.stands
          (still_new events.second events.first db _ _ one events.first_second new.second_new) in
      (released-Stepped t i correlation_id now events.third _ two.stands (
        still_new events.third events.second _ _ _ two events.second_third
          (still_new events.third events.first db _ _ one events.first_third new.third_new))).stands
