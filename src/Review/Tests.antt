-- ===== src/Review/Tests.antt =====
-- Orders of one restaurant that are confirmed and reviewed; white space is the blank, and averages
-- are cut to hundredths.
use food_delivery_api.Common.{
  ℕ, ◌==◌, ◌*◌, ◌/◌, ◌≡◌, refl, Bool, none, some, List, [], ◌∷◌, length, sum_of, ok, err,
}
use food_delivery_api.Common.Int.{pos}
use food_delivery_api.Common.Number.{int}
use food_delivery_api.Messaging.Idempotent.{run_once}
use food_delivery_api.Review.{
  Review, ReviewDb, ReviewError, Fresh, SubmitReviewCommand, duplicate_review, create_rating,
  normalize_comment, create, find_eligible, save, aggregate_for_restaurant, append,
  restaurant_rating_changed_event, record_review, submit_review, submit, mark_processed,
  upsert_eligible, record_eligibility, parse_eligible_order, handle,
}
use food_delivery_api.Review.Once.{submit_review_once}
use food_delivery_api.Review.Ratings.{
  Call, submitting, delivering, IsSound, told, step, run_calls, run_calls-IsSound,
}
use food_delivery_api.Tenancy.{Context}

abbrev space : ℕ → Bool
space c = c == 32

abbrev average : List ℕ → ℕ
average ratings = (100 * sum_of (λ r. r) ratings) / length ratings

abbrev empty : ReviewDb
empty = record { eligible_orders = []; reviews = []; outbox = []; processed_events = [] }

abbrev request : ℕ → Context
request actor = some (record { tenant_id = 1; actor = actor; roles = [] })

abbrev fresh : ℕ → Fresh
fresh id = record { review_id = id; correlation_id = 90; now = 7 }

abbrev confirmed : ℕ → ℕ → ℕ → Call
confirmed event_id order_id user_id =
    delivering (record { event_id = event_id; event_type = "OrderConfirmed"; tenant_id = 1 })
      (record { order_id = some order_id; user_id = some user_id; restaurant_id = some 8 })

abbrev calls : List Call
calls =
    confirmed 50 4 3
    ∷ confirmed 51 5 6
    ∷ submitting (request 3) (fresh 30) 4 (int (pos 5)) (some (32 ∷ 97 ∷ 32 ∷ []))
    ∷ submitting (request 3) (fresh 31) 5 (int (pos 1)) none
    ∷ submitting (request 6) (fresh 32) 5 (int (pos 2)) none
    ∷ submitting (request 6) (fresh 33) 5 (int (pos 2)) none
    ∷ []

abbrev command : ℕ → ℕ → SubmitReviewCommand
command user_id order_id = record {
  tenant_id = 1;
  user_id = user_id;
  order_id = order_id;
  rating = int (pos 5);
  comment = none;
}

-- The tables before the first review.
abbrev eligible_db : ReviewDb
unfolding run_calls step handle parse_eligible_order record_eligibility upsert_eligible
    mark_processed run_once
eligible_db = run_calls average space (confirmed 50 4 3 ∷ []) empty

abbrev reviewed : Review
reviewed = record {
  id = 30;
  tenant_id = 1;
  order_id = 4;
  restaurant_id = 8;
  user_id = 3;
  rating = 5;
  comment = none;
  created_at = 7;
}

abbrev reviewed_db : ReviewDb
unfolding submit_review create_rating create normalize_comment find_eligible record_review save
    append aggregate_for_restaurant restaurant_rating_changed_event run_calls step handle
    parse_eligible_order record_eligibility upsert_eligible mark_processed run_once
reviewed_db = (submit_review average space (request 3) (fresh 30) (command 3 4) eligible_db).1

first_review :
    submit_review average space (request 3) (fresh 30) (command 3 4) eligible_db
    ≡ (ok reviewed, reviewed_db)
unfolding submit_review create_rating create normalize_comment find_eligible record_review save
    append aggregate_for_restaurant restaurant_rating_changed_event run_calls step handle
    parse_eligible_order record_eligibility upsert_eligible mark_processed run_once
first_review = refl

-- Two reviews stay, and the last event tells their average 3.50.
two_reviews :
    (length (run_calls average space calls empty).reviews ≡ 2)
    × (told 1 8 none (run_calls average space calls empty).outbox ≡ some (350, 2))
    × ((submit average space
          (request 6)
          (fresh 33)
          5
          (int (pos 2))
          none
          (run_calls average space calls empty)).0
        ≡ err (duplicate_review 5))
unfolding submit submit_review create_rating create normalize_comment find_eligible record_review
    save append aggregate_for_restaurant restaurant_rating_changed_event run_calls step handle
    parse_eligible_order record_eligibility upsert_eligible mark_processed run_once
two_reviews = (refl, refl, refl)

submit_review_once_example :
    (e : ReviewError) × (submit_review average space
        (request 6)
        (fresh 40)
        (command 6 4)
        (run_calls average space calls reviewed_db)
      ≡ (err e, run_calls average space calls reviewed_db))
submit_review_once_example =
    submit_review_once average space (request 3) (request 6) (fresh 30) (fresh 40) (command 3 4)
      (command 6 4) eligible_db reviewed_db reviewed calls first_review refl

empty-IsSound : IsSound average space empty
empty-IsSound = record { ratings = refl; comments = refl; orders = refl; events = λ t m. refl }

run_calls-IsSound_example : IsSound average space (run_calls average space calls empty)
run_calls-IsSound_example = run_calls-IsSound average space calls empty empty-IsSound
