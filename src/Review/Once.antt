-- ===== src/Review/Once.antt =====
-- An order is reviewed once, whatever the service does between two submissions.
use food_delivery_api.Common.{
  ℕ, ◌==◌, ==_iff, ◌≡◌, Bool, true, List, [], ◌∷◌, any, ok, err, arith, any-append, any-append_self,
}
use food_delivery_api.Review.{
  Review, ReviewDb, ReviewError, Fresh, SubmitReviewCommand, submit_review,
}
use food_delivery_api.Review.Ratings.{
  Call, submitting, delivering, step, run_calls, submit-leaves, handle-tables,
}
use food_delivery_api.Review.Submission.{submit_review-IsSubmitted, submit_review-reviewed}
use food_delivery_api.Tenancy.{Context}

abbrev has_review : ℕ → ReviewDb → Bool
has_review order_id db = any (λ row. row.order_id == order_id) db.reviews

module _ (average : List ℕ → ℕ) (space : ℕ → Bool) where
  -- No call removes a review.
  run_calls-keep :
      (order_id : ℕ) (calls : List Call) (db : ReviewDb)
      → has_review order_id db ≡ true
      → has_review order_id (run_calls average space calls db) ≡ true
  unfolding run_calls step
  run_calls-keep order_id [] db h = h
  run_calls-keep order_id (submitting context fresh order rating comment ∷ calls) db h =
      run_calls-keep order_id calls _ (
        submit-leaves average space (λ after. has_review order_id after ≡ true) context fresh order
          rating comment db h
          λ command db' review c done.
            ground
              (arith, any-append (λ row. row.order_id == order_id) db.reviews review, done.after))
  run_calls-keep order_id (delivering envelope payload ∷ calls) db h =
      run_calls-keep order_id calls _
        (ground (arith, (handle-tables average space envelope payload db).0))

  -- After a submission that returned, whatever calls follow, each further submission for that order
  -- throws and writes nothing.
  pub submit_review_once :
      (context later : Context) (fresh fresh' : Fresh) (command command' : SubmitReviewCommand)
      (db db' : ReviewDb) (review : Review) (calls : List Call)
      → submit_review average space context fresh command db ≡ (ok review, db')
      → command'.order_id ≡ command.order_id
      → (e : ReviewError) × (submit_review average space later fresh' command'
            (run_calls average space calls db')
          ≡ (err e, run_calls average space calls db'))
  submit_review_once context later fresh fresh' command command' db db' review calls h same =
      let done = submit_review-IsSubmitted average space context fresh command db db' review h in
      let there : has_review command'.order_id db' ≡ true = ground (
        arith,
        any-append_self (λ row. row.order_id == command'.order_id) db.reviews review,
        done.after,
        done.order_id,
        ==_iff review.order_id command'.order_id,
      ) in
      submit_review-reviewed average space later fresh' command' _
        (run_calls-keep command'.order_id calls db' there)
