-- ===== src/Review/Submission.antt =====
-- What a submission does, whichever way it ends.
use food_delivery_api.Common.{
  ℕ, ◌==◌, ◌≡◌, ◌≢◌, ap, ◌∙◌, some, Bool, true, false, List, [], ◌∷◌, ◌++◌, length, any, find,
  Result, ok, err, arith, inl, inr, Option-cases, Result-cases,
}
use food_delivery_api.Review.{
  Review, ReviewDb, ReviewError, EligibleOrderRow, Fresh, SubmitReviewCommand, create_rating,
  normalize_comment, create, is_eligible, find_eligible, clashes, save, ratings_of,
  restaurant_rating_changed_event, append, aggregate_for_restaurant, record_review, submit_review,
}
use food_delivery_api.Tenancy.{Context, TenantRequestContext}

-- A review of the order clashes with a new one.
any_both_ways :
    (review : Review) (order_id : ℕ) (rows : List Review)
    → review.order_id ≡ order_id
    → any (λ row. row.order_id == order_id) rows ≡ true
    → any (clashes review) rows ≢ false
any_both_ways review order_id [] o h n = ground arith
any_both_ways review order_id (r ∷ rows) o h n =
    ground (arith, any_both_ways review order_id rows o)

module _ (average : List ℕ → ℕ) (space : ℕ → Bool) (context : Context) (fresh : Fresh) where
  -- What a submission that returned has done: the review is that of its order, and one event with
  -- the new aggregate of the restaurant is in the outbox.
  pub record IsSubmitted (command : SubmitReviewCommand) (db db' : ReviewDb) (review : Review)
      : Type 0 where
    pub request : TenantRequestContext
    pub in_request : context ≡ some request
    pub eligible : EligibleOrderRow
    pub found :
        find (is_eligible command.tenant_id command.order_id) db.eligible_orders ≡ some eligible
    pub owned : eligible.user_id ≡ command.user_id
    pub rating : create_rating command.rating ≡ ok review.rating
    pub comment : normalize_comment space command.comment ≡ ok review.comment
    pub tenant_id : review.tenant_id ≡ command.tenant_id
    pub order_id : review.order_id ≡ command.order_id
    pub user_id : review.user_id ≡ command.user_id
    pub restaurant_id : review.restaurant_id ≡ eligible.restaurant_id
    pub new : any (clashes review) db.reviews ≡ false
    pub after : db' ≡ record db {
      reviews = db.reviews ++ review ∷ [];
      outbox =
          db.outbox
          ++ record {
            entry =
                restaurant_rating_changed_event review.restaurant_id
                  (average
                    (ratings_of review.tenant_id review.restaurant_id (db.reviews ++ review ∷ [])))
                  (length
                    (ratings_of review.tenant_id review.restaurant_id (db.reviews ++ review ∷ [])));
            tenant_id = request.tenant_id;
            correlation_id = fresh.correlation_id;
          }
            ∷ [];
    }

  -- The call, and the way its tests go.
  pub submit_review-IsSubmitted :
      (command : SubmitReviewCommand) (db db' : ReviewDb) (review : Review)
      → submit_review average space context fresh command db ≡ (ok review, db')
      → IsSubmitted command db db' review
  unfolding submit_review find_eligible create record_review save append aggregate_for_restaurant
  submit_review-IsSubmitted command db db' review h =
      elim (Option-cases
        (find (is_eligible command.tenant_id command.order_id) db.eligible_orders)) [
          | inl e ↦ ground arith
          | inr (eligible, e) ↦ elim (Option-cases context) [
            | inl c ↦ ground arith
            | inr (request, c) ↦ record {
              request = request;
              in_request = c;
              eligible = eligible;
              found = e;
              owned = ground arith;
              rating = ground arith;
              comment = ground arith;
              tenant_id = ground arith;
              order_id = ground arith;
              user_id = ground arith;
              restaurant_id = ground arith;
              new = ground arith;
              after = ground arith;
            }
          ]
        ]

  -- A submission that throws has written nothing.
  pub submit_review-err :
      (command : SubmitReviewCommand) (db db' : ReviewDb) (e : ReviewError)
      → submit_review average space context fresh command db ≡ (err e, db')
      → db' ≡ db
  unfolding submit_review find_eligible create record_review save append aggregate_for_restaurant
  submit_review-err command db db' e h = ground arith

  pub submit_review-result :
      (command : SubmitReviewCommand) (db : ReviewDb) (r : Result ReviewError Review)
      → (submit_review average space context fresh command db).0 ≡ r
      → submit_review average space context fresh command db
        ≡ (r, (submit_review average space context fresh command db).1)
  submit_review-result command db r h = ground arith

  -- Where the order has its review, nobody submits another one.
  pub submit_review-reviewed :
      (command : SubmitReviewCommand) (db : ReviewDb)
      → any (λ row. row.order_id == command.order_id) db.reviews ≡ true
      → (e : ReviewError) × (submit_review average space context fresh command db ≡ (err e, db))
  submit_review-reviewed command db h =
      let call = submit_review average space context fresh command db in
      elim (Result-cases call.0) [
        | inl (review, r) ↦
            let done =
              submit_review-IsSubmitted command db call.1 review
                (submit_review-result command db (ok review) r) in
            elim (any_both_ways review command.order_id db.reviews done.order_id h done.new) [ ]
        | inr (e, r) ↦
            let same =
              submit_review-err command db call.1 e (submit_review-result command db (err e) r) in
            (e, (submit_review-result command db (err e) r) ∙ ap (λ x. (err e, x)) same)
      ]
