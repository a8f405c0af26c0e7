-- ===== src/Review/Ratings.antt =====
-- The reviews that the service keeps, and the ratings that its events tell, over any sequence of
-- calls.
use food_delivery_api.Common.{
  ℕ, ◌==◌, ==_iff, leb, ◌≡◌, refl, sym, subst, ◌&&◌, ◌||◌, not, Option, none, some, Bool, true,
  false, List, [], ◌∷◌, ◌++◌, length, any, every, if◌then◌else◌, ok, err, arith, inl, inr,
  Bool-cases, Result-cases, any-append, every-append,
}
use food_delivery_api.Common.Chars.{Text, is_blank, is_trimmed, trim-is_trimmed}
use food_delivery_api.Common.Keys.{distinct_by, distinct_by-append}
use food_delivery_api.Common.Number.{Number}
use food_delivery_api.Common.Text.{text_eq}
use food_delivery_api.Messaging.Idempotent.{run_once}
use food_delivery_api.Review.{
  Review, ReviewDb, OutboxRow, SubmitReviewCommand, Fresh, Envelope, OrderConfirmedPayload,
  create_rating, normalize_comment, max_comment_length, is_of, ratings_of,
  restaurant_rating_changed, restaurant_rating_changed_event, submit, mark_processed,
  upsert_eligible, record_eligibility, parse_eligible_order, handle, submit_review,
}
use food_delivery_api.Review.Submission.{
  IsSubmitted, submit_review-IsSubmitted, submit_review-err, submit_review-result,
}
use food_delivery_api.Tenancy.{Context, TenantRequestContext}

-- A call of the service: a request to the controller, or an event from the order service.
pub data Call : Type 0 where
  submitting : Context → Fresh → ℕ → Number → Option Text → Call
  delivering : Envelope → OrderConfirmedPayload → Call

module _ (average : List ℕ → ℕ) (space : ℕ → Bool) where
  unfoldable pub step : Call → ReviewDb → ReviewDb
  unfolding submit handle
  step (submitting context fresh order_id rating comment) db =
      (submit average space context fresh order_id rating comment db).1
  step (delivering envelope payload) db = (handle envelope payload db).1

  unfoldable pub run_calls : List Call → ReviewDb → ReviewDb
  unfolding step
  run_calls [] db = db
  run_calls (call ∷ calls) db = run_calls calls (step call db)

abbrev rating_in_range : Review → Bool
rating_in_range review = leb 1 review.rating && leb review.rating 5

abbrev comment_fits : (ℕ → Bool) → Option Text → Bool
comment_fits space none = true
comment_fits space (some comment) =
    not (is_blank comment) && (is_trimmed space comment && leb (length comment) max_comment_length)

-- The row of the outbox is a change of the rating of the restaurant.
abbrev pub tells : ℕ → ℕ → OutboxRow → Bool
tells tenant_id restaurant_id row =
    text_eq row.entry.event_type restaurant_rating_changed
    && (row.entry.aggregate_id == restaurant_id && row.tenant_id == tenant_id)

-- What the last of the events tells of a restaurant: the average and the count.
abbrev pub told : ℕ → ℕ → Option (ℕ × ℕ) → List OutboxRow → Option (ℕ × ℕ)
told tenant_id restaurant_id before [] = before
told tenant_id restaurant_id before (row ∷ rows) =
    told tenant_id restaurant_id
      (if tells tenant_id restaurant_id row
        then some (row.entry.payload.avg_rating, row.entry.payload.review_count)
        else before)
      rows

-- What the reviews of a restaurant amount to.
abbrev pub aggregated : (List ℕ → ℕ) → ℕ → ℕ → List Review → Option (ℕ × ℕ)
aggregated average tenant_id restaurant_id reviews =
    let ratings = ratings_of tenant_id restaurant_id reviews in
    if any (is_of tenant_id restaurant_id) reviews
    then some (average ratings, length ratings)
    else none

-- The ratings are from 1 to 5, the comments trimmed, neither empty nor too long, no order has two
-- reviews, and the last event of each restaurant tells the aggregate of its reviews.
pub record IsSound (average : List ℕ → ℕ) (space : ℕ → Bool) (db : ReviewDb) : Type 0 where
  pub ratings : every rating_in_range db.reviews ≡ true
  pub comments : every (λ row. comment_fits space row.comment) db.reviews ≡ true
  pub orders : distinct_by (λ row. row.order_id) db.reviews ≡ true
  pub events :
      (tenant_id restaurant_id : ℕ)
      → told tenant_id restaurant_id none db.outbox
        ≡ aggregated average tenant_id restaurant_id db.reviews

created-in_range :
    (value : Number) (rating : ℕ)
    → create_rating value ≡ ok rating
    → (leb 1 rating && leb rating 5) ≡ true
unfolding create_rating
created-in_range value rating h = ground arith

normalized-fits :
    (space : ℕ → Bool) (given kept : Option Text)
    → normalize_comment space given ≡ ok kept
    → comment_fits space kept ≡ true
unfolding normalize_comment
normalized-fits space none kept h = ground arith
normalized-fits space (some comment) kept h = ground (arith, trim-is_trimmed space comment)

not_any_order :
    (rows : List Review) (row : Review)
    → any (λ other. other.id == row.id || other.order_id == row.order_id) rows ≡ false
    → any (λ other. other.order_id == row.order_id) rows ≡ false
not_any_order [] row n = refl
not_any_order (r ∷ rows) row n = ground (arith, not_any_order rows row)

told-append :
    (tenant_id restaurant_id : ℕ) (before : Option (ℕ × ℕ)) (rows : List OutboxRow)
    (row : OutboxRow)
    → told tenant_id restaurant_id before (rows ++ row ∷ [])
      ≡ told tenant_id restaurant_id (told tenant_id restaurant_id before rows) (row ∷ [])
told-append tenant_id restaurant_id before [] row = refl
told-append tenant_id restaurant_id before (r ∷ rows) row =
    told-append tenant_id restaurant_id
      (if tells tenant_id restaurant_id r
        then some (r.entry.payload.avg_rating, r.entry.payload.review_count)
        else before)
      rows row

-- A review of another restaurant, or of another tenant, does not count.
ratings_of-append_other :
    (tenant_id restaurant_id : ℕ) (rows : List Review) (row : Review)
    → is_of tenant_id restaurant_id row ≡ false
    → ratings_of tenant_id restaurant_id (rows ++ row ∷ [])
      ≡ ratings_of tenant_id restaurant_id rows
ratings_of-append_other tenant_id restaurant_id [] row h = ground arith
ratings_of-append_other tenant_id restaurant_id (r ∷ rows) row h =
    ground (arith, ratings_of-append_other tenant_id restaurant_id rows row h)

-- Calls that neither add a review nor an event keep the tables sound.
same-IsSound :
    (average : List ℕ → ℕ) (space : ℕ → Bool) (db db' : ReviewDb)
    → db'.reviews ≡ db.reviews
    → db'.outbox ≡ db.outbox
    → IsSound average space db
    → IsSound average space db'
same-IsSound average space db db' r o sound = record {
  ratings = ground (arith, sound.ratings);
  comments = ground (arith, sound.comments);
  orders = ground (arith, sound.orders);
  events = λ t m. ground (arith, sound.events t m);
}

module _ (average : List ℕ → ℕ) (space : ℕ → Bool) where
  -- The row of the outbox that a submission adds.
  abbrev added_row : List Review → Review → ℕ → OutboxRow
  unfolding restaurant_rating_changed_event
  added_row rows review correlation_id = record {
    entry =
        restaurant_rating_changed_event review.restaurant_id
          (average (ratings_of review.tenant_id review.restaurant_id (rows ++ review ∷ [])))
          (length (ratings_of review.tenant_id review.restaurant_id (rows ++ review ∷ [])));
    tenant_id = review.tenant_id;
    correlation_id = correlation_id;
  }

  -- The event of a submission tells the aggregate with the new review.
  told-submitted :
      (t m : ℕ) (rows : List Review) (outbox : List OutboxRow) (review : Review)
      (correlation_id : ℕ)
      → told t m none outbox ≡ aggregated average t m rows
      → told t m none (outbox ++ added_row rows review correlation_id ∷ [])
        ≡ aggregated average t m (rows ++ review ∷ [])
  unfolding restaurant_rating_changed_event
  told-submitted t m rows outbox review correlation_id h =
      let row = added_row rows review correlation_id in
      elim (Bool-cases (is_of t m review)) [
        | inl y ↦ ground (
          arith,
          told-append t m none outbox row,
          any-append (is_of t m) rows review,
          ==_iff review.restaurant_id m,
          ==_iff review.tenant_id t,
        )
        | inr n ↦ ground (
          arith,
          told-append t m none outbox row,
          any-append (is_of t m) rows review,
          ratings_of-append_other t m rows review n,
        )
      ]

  submitted-IsSound :
      (context : Context) (fresh : Fresh) (command : SubmitReviewCommand) (db db' : ReviewDb)
      (review : Review)
      → ((request : TenantRequestContext)
          → context ≡ some request
          → request.tenant_id ≡ command.tenant_id)
      → IsSubmitted average space context fresh command db db' review
      → IsSound average space db
      → IsSound average space db'
  unfolding restaurant_rating_changed_event
  submitted-IsSound context fresh command db db' review c done sound = record {
    ratings = ground (
      arith,
      every-append rating_in_range db.reviews review,
      created-in_range command.rating review.rating done.rating,
    );
    comments = ground (
      arith,
      every-append (λ row. comment_fits space row.comment) db.reviews review,
      normalized-fits space command.comment review.comment done.comment,
    );
    orders = ground (
      arith,
      distinct_by-append (λ row. row.order_id) db.reviews review sound.orders
          (not_any_order db.reviews review done.new),
    );
    events = λ t m. ground (
      arith,
      c done.request done.in_request,
      told-submitted t m db.reviews db.outbox review fresh.correlation_id (sound.events t m),
    );
  }

  -- What a submission through the controller leaves: the tables as they were, or those of a
  -- submission that returned, in the tenant of the request.
  pub submit-leaves {ℓ} :
      (P : ReviewDb → Type ℓ) (context : Context) (fresh : Fresh) (order_id : ℕ) (rating : Number)
      (comment : Option Text) (db : ReviewDb)
      → P db
      → ((command : SubmitReviewCommand) (db' : ReviewDb) (review : Review)
          → ((request : TenantRequestContext)
              → context ≡ some request
              → request.tenant_id ≡ command.tenant_id)
          → IsSubmitted average space context fresh command db db' review
          → P db')
      → P (submit average space context fresh order_id rating comment db).1
  unfolding submit
  submit-leaves P none fresh order_id rating comment db same done = same
  submit-leaves P (some request) fresh order_id rating comment db same done =
      let command : SubmitReviewCommand = record {
        tenant_id = request.tenant_id;
        user_id = request.actor;
        order_id = order_id;
        rating = rating;
        comment = comment;
      } in
      let call = submit_review average space (some request) fresh command db in
      let ends = submit_review-result average space (some request) fresh command db in
      elim (Result-cases call.0) [
        | inl (review, r) ↦
            done command call.1 review (λ q e. ground arith)
              (submit_review-IsSubmitted average space (some request) fresh command db call.1 review
                (ends (ok review) r))
        | inr (e, r) ↦
            subst P {y = call.1}
              (sym (
                submit_review-err average space (some request) fresh command db call.1 e
                  (ends (err e) r)))
              same
      ]

  -- An event adds to the orders that may be reviewed only.
  pub handle-tables :
      (envelope : Envelope) (payload : OrderConfirmedPayload) (db : ReviewDb)
      → ((handle envelope payload db).1.reviews ≡ db.reviews)
        × ((handle envelope payload db).1.outbox ≡ db.outbox)
  unfolding handle parse_eligible_order record_eligibility upsert_eligible mark_processed run_once
  handle-tables envelope payload db = (ground arith, ground arith)

  -- Whatever calls the service answers one after another, its tables stay sound. Submissions that are
  -- under way at once are no such calls.
  pub run_calls-IsSound :
      (calls : List Call) (db : ReviewDb)
      → IsSound average space db
      → IsSound average space (run_calls average space calls db)
  unfolding run_calls
  run_calls-IsSound [] db sound = sound
  run_calls-IsSound (submitting context fresh order_id rating comment ∷ calls) db sound =
      run_calls-IsSound calls _ (
        submit-leaves (IsSound average space) context fresh order_id rating comment db sound
          λ command db' review c done.
            submitted-IsSound context fresh command db db' review c done sound)
  run_calls-IsSound (delivering envelope payload ∷ calls) db sound =
      let kept = handle-tables envelope payload db in
      run_calls-IsSound calls _ (same-IsSound average space db _ kept.0 kept.1 sound)
