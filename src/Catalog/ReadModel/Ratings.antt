-- ===== src/Catalog/ReadModel/Ratings.antt =====
-- From a review to the rating that the catalog shows: the events of the review service, delivered in
-- the order of its outbox, in the catalog's read model.
use food_delivery_api.Common.{
  ℕ, ◌≡◌, refl, ap, ◌∙◌, Option, none, some, Bool, String, List, [], ◌∷◌, find, ok, for_each, arith,
  if◌then◌else◌, Bool-cases, inl, inr,
}
use food_delivery_api.Common.Table.{find-update_where, find_passes}
use food_delivery_api.Common.Text.{text_eq}
use food_delivery_api.Catalog.Events.{
  EventType, restaurant_rating_changed, other_event, rating_payload,
}
use food_delivery_api.Catalog.ReadModel.{
  ReadDb, ReadRestaurantEntity, ReadAction, apply_review_event, update_rating, is_of,
}
use food_delivery_api.Review.{OutboxRow, ReviewDb}
use food_delivery_api.Review.Ratings.{IsSound, tells, told, aggregated}

-- The type of a message on review.events.
abbrev event_type_of : String → EventType
event_type_of text =
    if text_eq text "RestaurantRatingChanged" then restaurant_rating_changed else other_event text

-- The projector on a message of the review service; its id plays no part in it.
unfoldable pub follow_row : OutboxRow → ReadAction (Unit {0})
unfolding apply_review_event
follow_row row =
    apply_review_event
      (record {
        event_id = 0;
        event_type = event_type_of row.entry.event_type;
        aggregate_id = row.entry.aggregate_id;
        tenant_id = row.tenant_id;
      })
      (event_type_of row.entry.event_type)
      (rating_payload row.entry.payload.avg_rating row.entry.payload.review_count)

abbrev pub rated : ReadRestaurantEntity → Option (ℕ × ℕ)
rated entity = some (entity.rating, entity.review_count)

-- What a restaurant shows after the messages of a list.
pub record IsFollowed (tenant_id restaurant_id : ℕ) (rows : List OutboxRow) (read : ReadDb)
    (entity : ReadRestaurantEntity) : Type 0 where
  pub shown : ReadRestaurantEntity
  pub returned : (for_each follow_row rows read).0 ≡ ok tt
  pub found :
      find (is_of restaurant_id tenant_id) (for_each follow_row rows read).1.restaurants
      ≡ some shown
  pub same_row : shown.row ≡ entity.row
  pub tells_last : rated shown ≡ told tenant_id restaurant_id (rated entity) rows

-- `told ?? before`
abbrev pub or_told : ℕ × ℕ → Option (ℕ × ℕ) → Option (ℕ × ℕ)
or_told before none = some before
or_told before (some rating) = some rating

module _ (tenant_id restaurant_id : ℕ) where
  -- The restaurant after one message.
  abbrev rated_by : OutboxRow → ReadRestaurantEntity → ReadRestaurantEntity
  rated_by row entity =
      if tells tenant_id restaurant_id row
      then record entity {
        rating = row.entry.payload.avg_rating;
        review_count = row.entry.payload.review_count;
      }
      else entity

  follow_row-ok : (row : OutboxRow) (read : ReadDb) → (follow_row row read).0 ≡ ok tt
  unfolding follow_row apply_review_event update_rating
  follow_row-ok row read =
      elim (Bool-cases (text_eq row.entry.event_type "RestaurantRatingChanged")) [
        | inl y ↦ rw y refl
        | inr n ↦ rw n refl
      ]

  follow_row-found :
      (row : OutboxRow) (read : ReadDb) (entity : ReadRestaurantEntity)
      → find (is_of restaurant_id tenant_id) read.restaurants ≡ some entity
      → find (is_of restaurant_id tenant_id) (follow_row row read).1.restaurants
        ≡ some (rated_by row entity)
  unfolding follow_row apply_review_event update_rating
  follow_row-found row read entity h =
      elim (Bool-cases (text_eq row.entry.event_type "RestaurantRatingChanged")) [
        | inl y ↦ rw y (
            ground (
              arith,
              find-update_where (is_of restaurant_id tenant_id)
                  (is_of row.entry.aggregate_id row.tenant_id)
                  (λ e. record e {
                    rating = row.entry.payload.avg_rating;
                    review_count = row.entry.payload.review_count;
                  })
                  (λ e. refl) read.restaurants,
              find_passes (is_of restaurant_id tenant_id) read.restaurants entity,
            ))
        | inr n ↦ rw n h
      ]

  follow_rows :
      (rows : List OutboxRow) (read : ReadDb) (entity : ReadRestaurantEntity)
      → find (is_of restaurant_id tenant_id) read.restaurants ≡ some entity
      → IsFollowed tenant_id restaurant_id rows read entity
  follow_rows [] read entity h = record {
    shown = entity;
    returned = refl;
    found = h;
    same_row = refl;
    tells_last = refl;
  }
  follow_rows (row ∷ rows) read entity h =
      let rest =
        follow_rows rows (follow_row row read).1 (rated_by row entity)
          (follow_row-found row read entity h) in
      let first = follow_row-ok row read in
      record {
        shown = rest.shown;
        returned = ground (arith, rest.returned);
        found = ground (arith, rest.found);
        same_row = ground (arith, rest.same_row);
        tells_last = ground (arith, rest.tells_last);
      }

  -- What the messages tell replaces what was told before, if they tell anything.
  told-or :
      (rows : List OutboxRow) (before : ℕ × ℕ) (since : Option (ℕ × ℕ))
      → told tenant_id restaurant_id (or_told before since) rows
        ≡ or_told before (told tenant_id restaurant_id since rows)
  told-or [] before since = refl
  told-or (row ∷ rows) before since = elim (Bool-cases (tells tenant_id restaurant_id row)) [
    | inl y ↦
        rw y (
          told-or rows before (some (row.entry.payload.avg_rating, row.entry.payload.review_count)))
    | inr n ↦ rw n (told-or rows before since)
  ]

  -- Where the tables of the review service are sound, its messages, delivered in their order, all
  -- succeed and leave a restaurant of the read model with the average and the number of its reviews,
  -- or with the rating it had if it has no review.
  pub reviews_shown :
      (average : List ℕ → ℕ) (space : ℕ → Bool) (reviews : ReviewDb) (read : ReadDb)
      (entity : ReadRestaurantEntity)
      → IsSound average space reviews
      → find (is_of restaurant_id tenant_id) read.restaurants ≡ some entity
      → (shown : ReadRestaurantEntity) × (for_each follow_row reviews.outbox read
          ≡ (ok tt, (for_each follow_row reviews.outbox read).1))
        × (find
              (is_of restaurant_id tenant_id)
              (for_each follow_row reviews.outbox read).1.restaurants
            ≡ some shown)
        × (rated shown
            ≡ or_told
                (entity.rating, entity.review_count)
                (aggregated average tenant_id restaurant_id reviews.reviews))
  reviews_shown average space reviews read entity sound h =
      let done = follow_rows reviews.outbox read entity h in
      let before = told-or reviews.outbox (entity.rating, entity.review_count) none in
      let events = sound.events tenant_id restaurant_id in
      (
        done.shown,
        ground (arith, done.returned),
        done.found,
        done.tells_last ∙ before ∙ ap (or_told (entity.rating, entity.review_count)) events,
      )
