-- ===== src/Order/Tests/Runs.antt =====
-- A run of the saga of the order that was placed.
use food_delivery_api.Common.{refl, true, false}
use food_delivery_api.Order.SagaState.{SagaState}
use food_delivery_api.Order.Replies.Runs.{Stands}
use food_delivery_api.Order.Replies.Ends.{Events, AreNew, replied}
use food_delivery_api.Order.Life.{IsFresh, placed_order-Stands}
use food_delivery_api.Order.Tests.{empty_db, placed_db, placed_order, placed, outside, command}

abbrev events : Events
events = record {
  first = 70;
  second = 71;
  third = 72;
  first_second = refl;
  first_third = refl;
  second_third = refl;
}

new_events : AreNew events placed_db
new_events = record { first_new = refl; second_new = refl; third_new = refl }

fresh : IsFresh outside command empty_db
fresh = record { no_claim = refl; no_order = refl; no_saga = refl }

-- The stock is reserved, the charge is declined, and the stock released.
placed_order-Stands_example :
    Stands 1 11 (replied 1 11 21 50 true false events placed_db) SagaState.cancelled
placed_order-Stands_example =
    placed_order-Stands outside command 40 50 empty_db placed_db placed_order true false events
      fresh fresh placed new_events
