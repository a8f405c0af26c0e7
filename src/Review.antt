-- ===== src/Review.antt =====
-- The review service: apps/review/src/domain/review (review.ts, rating.ts), the handlers
-- submit-review.handler.ts, record-review-eligibility.handler.ts and parse-eligible-order.ts of
-- apps/review/src/application with build-rating-changed-event.ts, the repositories, the writing side
-- of the outbox, the controller and the consumer of order events. What the database's AVG and the
-- rounding to two decimals make of a list of ratings, in hundredths, is an argument.
pub mod Submission
pub mod Ratings
pub mod Once
pub mod Tests
use food_delivery_api.Common.{
  ℕ, ◌==◌, ltb, ◌&&◌, ◌||◌, not, Option, none, some, Bool, true, false, List, [], ◌∷◌, ◌++◌, map,
  length, keep, any, find, String, Result, ok, err, Action, ◌>>=◌, ◌>>◌, pure, throw, throw_if,
  gets, modify, lift, or_throw, catch, run_in_transaction, if◌then◌else◌,
}
use food_delivery_api.Common.Chars.{Text, is_blank, trim}
use food_delivery_api.Common.Int.{pos}
use food_delivery_api.Common.Number.{Number, is_integer, below, above, to_nat}
use food_delivery_api.Common.Table.{update_where}
use food_delivery_api.Common.Text.{text_eq}
use food_delivery_api.Messaging.Idempotent.{ProcessedEventStore, run_once}
use food_delivery_api.Tenancy.{Context, get_tenant_id_or_throw, get_actor}

-- The exceptions of the service, then the errors of the tables and of the tenant context.
pub data ReviewError : Type 0 where
  invalid_rating : Number → ReviewError
  invalid_comment : ℕ → ReviewError
  review_eligibility_not_found review_not_owned duplicate_review : ℕ → ReviewError
  unique_violation tenant_context_not_set : ReviewError
  duplicate_event : ℕ → ReviewError

-- `ReviewProps`
pub record Review : Type 0 where
  pub id : ℕ
  pub tenant_id : ℕ
  pub order_id : ℕ
  pub restaurant_id : ℕ
  pub user_id : ℕ
  pub rating : ℕ
  pub comment : Option Text
  pub created_at : ℕ

-- `EligibleOrderRow`
pub record EligibleOrderRow : Type 0 where
  pub order_id : ℕ
  pub tenant_id : ℕ
  pub user_id : ℕ
  pub restaurant_id : ℕ

-- The payload of `RestaurantRatingChanged`, with the average in hundredths.
pub record RestaurantRatingChangedPayload : Type 0 where
  pub restaurant_id : ℕ
  pub avg_rating : ℕ
  pub review_count : ℕ

-- `OutboxCommandEntry`
pub record OutboxCommandEntry : Type 0 where
  pub aggregate_id : ℕ
  pub topic : String
  pub event_type : String
  pub payload : RestaurantRatingChangedPayload

pub record OutboxRow : Type 0 where
  pub entry : OutboxCommandEntry
  pub tenant_id : ℕ
  pub correlation_id : ℕ

-- The tables of the service.
pub record ReviewDb : Type 0 where
  pub eligible_orders : List EligibleOrderRow
  pub reviews : List Review
  pub outbox : List OutboxRow
  pub processed_events : List ℕ

abbrev pub ReviewAction : Type 0 → Type 0
ReviewAction A = Action ReviewDb ReviewError A

abbrev pub max_comment_length : ℕ
max_comment_length = 1000

-- `Rating.create`; the rating is its number.
unfoldable pub create_rating : Number → Result ReviewError ℕ
create_rating value =
    if not (is_integer value) || (below value (pos 1) || above value (pos 5))
    then err (invalid_rating value)
    else ok (to_nat value)

unfoldable pub normalize_comment : (ℕ → Bool) → Option Text → Result ReviewError (Option Text)
normalize_comment space none = ok none
normalize_comment space (some comment) =
    let trimmed = trim space comment in
    if is_blank trimmed
    then ok none
    else if ltb max_comment_length (length trimmed)
    then err (invalid_comment (length trimmed))
    else ok (some trimmed)

-- `SubmitReviewCommand`
pub record SubmitReviewCommand : Type 0 where
  pub tenant_id : ℕ
  pub user_id : ℕ
  pub order_id : ℕ
  pub rating : Number
  pub comment : Option Text

-- What the platform gives a call: the new ids and the time.
pub record Fresh : Type 0 where
  pub review_id : ℕ
  pub correlation_id : ℕ
  pub now : ℕ

abbrev with_comment :
    SubmitReviewCommand
    → EligibleOrderRow
    → ℕ
    → Fresh
    → Result ReviewError (Option Text)
    → Result ReviewError Review
with_comment command eligible rating fresh (err e) = err e
with_comment command eligible rating fresh (ok comment) = ok (record {
  id = fresh.review_id;
  tenant_id = command.tenant_id;
  order_id = command.order_id;
  restaurant_id = eligible.restaurant_id;
  user_id = command.user_id;
  rating = rating;
  comment = comment;
  created_at = fresh.now;
})

-- `Review.create`, on what the handler passes.
unfoldable pub create :
    (ℕ → Bool) → SubmitReviewCommand → EligibleOrderRow → ℕ → Fresh → Result ReviewError Review
unfolding normalize_comment
create space command eligible rating fresh =
    with_comment command eligible rating fresh (normalize_comment space command.comment)

abbrev pub is_eligible : ℕ → ℕ → EligibleOrderRow → Bool
is_eligible tenant_id order_id row = row.order_id == order_id && row.tenant_id == tenant_id

unfoldable pub find_eligible : ℕ → ℕ → ReviewAction (Option EligibleOrderRow)
find_eligible tenant_id order_id =
    gets λ db. find (is_eligible tenant_id order_id) db.eligible_orders

abbrev pub same_order : ℕ → EligibleOrderRow → Bool
same_order order_id row = row.order_id == order_id

-- The order is the primary key: its row takes the new values.
unfoldable pub upsert_eligible : EligibleOrderRow → ReviewAction (Unit {0})
upsert_eligible row = modify λ db. record db {
  eligible_orders =
      if any (same_order row.order_id) db.eligible_orders
      then update_where (same_order row.order_id) (λ r. row) db.eligible_orders
      else db.eligible_orders ++ row ∷ [];
}

-- The rows that keep a new one out: the primary key, and the unique order.
abbrev pub clashes : Review → Review → Bool
clashes review row = row.id == review.id || row.order_id == review.order_id

unfoldable pub save : Review → ReviewAction Review
save review = do
  taken ← gets (λ db. any (clashes review) db.reviews)
  throw_if taken unique_violation
  modify (λ db. record db { reviews = db.reviews ++ review ∷ [] })
  pure review

abbrev pub is_of : ℕ → ℕ → Review → Bool
is_of tenant_id restaurant_id row = row.restaurant_id == restaurant_id && row.tenant_id == tenant_id

-- The ratings that the aggregate query reads.
abbrev pub ratings_of : ℕ → ℕ → List Review → List ℕ
ratings_of tenant_id restaurant_id reviews =
    map (λ row. row.rating) (keep (is_of tenant_id restaurant_id) reviews)

abbrev pub review_events_topic : String
review_events_topic = "review.events"

abbrev pub restaurant_rating_changed : String
restaurant_rating_changed = "RestaurantRatingChanged"

unfoldable pub restaurant_rating_changed_event : ℕ → ℕ → ℕ → OutboxCommandEntry
restaurant_rating_changed_event restaurant_id avg_rating review_count = record {
  aggregate_id = restaurant_id;
  topic = review_events_topic;
  event_type = restaurant_rating_changed;
  payload = record {
    restaurant_id = restaurant_id;
    avg_rating = avg_rating;
    review_count = review_count;
  };
}

unfoldable pub append : Context → ℕ → OutboxCommandEntry → ReviewAction (Unit {0})
append context correlation_id entry = do
  tenant_id ← get_tenant_id_or_throw tenant_context_not_set context
  modify λ db. record db {
    outbox =
        db.outbox
        ++ record { entry = entry; tenant_id = tenant_id; correlation_id = correlation_id } ∷ [];
  }

abbrev or_duplicate : {A : Type 0} → ℕ → ReviewError → ReviewAction A
or_duplicate order_id unique_violation = throw (duplicate_review order_id)
or_duplicate order_id e = throw e

module _ (average : List ℕ → ℕ) where
  -- `aggregateForRestaurant`: the average and the count. The transactions of two submissions do not
  -- overlap here, so that the read sees every review that was saved before.
  unfoldable pub aggregate_for_restaurant : ℕ → ℕ → ReviewAction (ℕ × ℕ)
  aggregate_for_restaurant tenant_id restaurant_id = gets λ db.
      let ratings = ratings_of tenant_id restaurant_id db.reviews in
      (average ratings, length ratings)

  -- The body of the transaction.
  unfoldable pub record_review : Context → Fresh → Review → ReviewAction Review
  unfolding save aggregate_for_restaurant append restaurant_rating_changed_event
  record_review context fresh review = do
    saved ← save review
    aggregate ← aggregate_for_restaurant review.tenant_id review.restaurant_id
    append context fresh.correlation_id
        (restaurant_rating_changed_event review.restaurant_id aggregate.0 aggregate.1)
    pure saved

  module _ (space : ℕ → Bool) where
    -- `SubmitReviewHandler.execute`
    unfoldable pub submit_review : Context → Fresh → SubmitReviewCommand → ReviewAction Review
    unfolding create_rating create find_eligible record_review
    submit_review context fresh command = do
      rating ← lift (create_rating command.rating)
      row ← find_eligible command.tenant_id command.order_id
      eligible ← or_throw row (review_eligibility_not_found command.order_id)
      throw_if (not (eligible.user_id == command.user_id)) (review_not_owned command.order_id)
      review ← lift (create space command eligible rating fresh)
      catch (run_in_transaction (record_review context fresh review))
          (or_duplicate command.order_id)

    -- `ReviewsController.submit`, on the fields of its request.
    unfoldable pub submit : Context → Fresh → ℕ → Number → Option Text → ReviewAction Review
    unfolding submit_review
    submit context fresh order_id rating comment = do
      tenant_id ← get_tenant_id_or_throw tenant_context_not_set context
      submit_review context fresh (record {
        tenant_id = tenant_id;
        user_id = get_actor context;
        order_id = order_id;
        rating = rating;
        comment = comment;
      })

-- `OrderConfirmedPayload`; none is a field that is missing or empty.
pub record OrderConfirmedPayload : Type 0 where
  pub order_id : Option ℕ
  pub user_id : Option ℕ
  pub restaurant_id : Option ℕ

-- `EligibleOrderInput`
pub record EligibleOrderInput : Type 0 where
  pub order_id : ℕ
  pub user_id : ℕ
  pub restaurant_id : ℕ

abbrev eligible_of : Option ℕ → Option ℕ → Option ℕ → Option EligibleOrderInput
eligible_of (some order_id) (some user_id) (some restaurant_id) =
    some (record { order_id = order_id; user_id = user_id; restaurant_id = restaurant_id })
eligible_of _ _ _ = none

unfoldable pub parse_eligible_order : OrderConfirmedPayload → Option EligibleOrderInput
parse_eligible_order payload = eligible_of payload.order_id payload.user_id payload.restaurant_id

unfoldable pub mark_processed : ℕ → ReviewAction (Unit {0})
mark_processed event_id = do
  seen ← gets (λ db. any (λ e. e == event_id) db.processed_events)
  throw_if seen (duplicate_event event_id)
  modify λ db. record db { processed_events = event_id ∷ db.processed_events }

abbrev is_duplicate : ReviewError → Bool
is_duplicate (duplicate_event event_id) = true
is_duplicate _ = false

abbrev pub processed_event_store : ProcessedEventStore ReviewDb ReviewError
unfolding mark_processed
processed_event_store = record {
  mark_processed = mark_processed;
  is_duplicate = is_duplicate;
  has = λ db event_id. any (λ e. e == event_id) db.processed_events;
}

-- `RecordReviewEligibilityHandler.execute`
unfoldable pub record_eligibility : ℕ → ℕ → EligibleOrderInput → ReviewAction (Unit {0})
unfolding upsert_eligible mark_processed run_once
record_eligibility event_id tenant_id order =
    run_in_transaction (
      run_once processed_event_store event_id (
        upsert_eligible (record {
          order_id = order.order_id;
          tenant_id = tenant_id;
          user_id = order.user_id;
          restaurant_id = order.restaurant_id;
        })))
    >> pure tt

-- The fields of the envelope that the consumer reads.
pub record Envelope : Type 0 where
  pub event_id : ℕ
  pub event_type : String
  pub tenant_id : ℕ

abbrev record_parsed : Envelope → Option EligibleOrderInput → ReviewAction (Unit {0})
unfolding record_eligibility
record_parsed envelope none = pure tt
record_parsed envelope (some order) = record_eligibility envelope.event_id envelope.tenant_id order

-- `OrderEventsConsumer.handle`
unfoldable pub handle : Envelope → OrderConfirmedPayload → ReviewAction (Unit {0})
unfolding parse_eligible_order record_eligibility
handle envelope payload =
    if text_eq envelope.event_type "OrderConfirmed"
    then record_parsed envelope (parse_eligible_order payload)
    else pure tt
