-- ===== src/Catalog/ReadModel/Runs.antt =====
-- After any sequence of commands the events of the outbox bring an empty read model to the live rows
-- of the tables.
use food_delivery_api.Common.{ℕ, ◌≡◌, ◌&&◌, not, Option, Bool, true, List, [], ◌∷◌, any, arith}
use food_delivery_api.Catalog.Commands.{
  create_restaurant, update_restaurant, delete_restaurant, create_menu_item, update_menu_item,
  delete_menu_item,
}
use food_delivery_api.Catalog.Item.{CreateMenuItemCommand, UpdateMenuItemProps}
use food_delivery_api.Catalog.Items.{has_menu_item_id}
use food_delivery_api.Catalog.ReadModel.ItemSteps.{
  create_menu_item-Projected, update_menu_item-Projected, delete_menu_item-Projected,
}
use food_delivery_api.Catalog.ReadModel.Projection.{Projected}
use food_delivery_api.Catalog.ReadModel.RestaurantSteps.{
  create_restaurant-Projected, update_restaurant-Projected, delete_restaurant-Projected,
}
use food_delivery_api.Catalog.Restaurant.{CreateRestaurantCommand, UpdateRestaurantProps}
use food_delivery_api.Catalog.Restaurants.{has_restaurant_id}
use food_delivery_api.Catalog.Store.{CatalogDb}
use food_delivery_api.Tenancy.{Context}

-- A call of a handler, with the context of its request, the time and the new id.
pub data Command : Type 0 where
  creating_restaurant : Context → ℕ → ℕ → CreateRestaurantCommand → Command
  updating_restaurant : Context → ℕ → ℕ → Option ℕ → UpdateRestaurantProps → Command
  deleting_restaurant : Context → ℕ → ℕ → Command
  creating_menu_item : Context → ℕ → ℕ → ℕ → CreateMenuItemCommand → Command
  updating_menu_item : Context → ℕ → ℕ → ℕ → Option ℕ → UpdateMenuItemProps → Command
  deleting_menu_item : Context → ℕ → ℕ → ℕ → Command

-- A new id is none that its table has, deleted rows included.
abbrev pub is_new : Command → CatalogDb → Bool
is_new (creating_restaurant context now id command) db =
    not (any (has_restaurant_id id) db.restaurants)
is_new (creating_menu_item context now id restaurant_id command) db =
    not (any (has_menu_item_id id) db.menu_items)
is_new _ db = true

module _ (space : ℕ → Bool) where
  -- The tables after a call, whether it returned or threw.
  unfoldable pub step : Command → CatalogDb → CatalogDb
  unfolding create_restaurant update_restaurant delete_restaurant create_menu_item update_menu_item
      delete_menu_item
  step (creating_restaurant context now id command) db =
      (create_restaurant space context now id command db).1
  step (updating_restaurant context now id expected_version changes) db =
      (update_restaurant space context now id expected_version changes db).1
  step (deleting_restaurant context now id) db = (delete_restaurant context now id db).1
  step (creating_menu_item context now id restaurant_id command) db =
      (create_menu_item space context now id restaurant_id command db).1
  step (updating_menu_item context now restaurant_id id expected_version changes) db =
      (update_menu_item space context now restaurant_id id expected_version changes db).1
  step (deleting_menu_item context now restaurant_id id) db =
      (delete_menu_item context now restaurant_id id db).1

  unfoldable pub run_commands : List Command → CatalogDb → CatalogDb
  unfolding step
  run_commands [] db = db
  run_commands (command ∷ commands) db = run_commands commands (step command db)

  unfoldable pub all_new : List Command → CatalogDb → Bool
  unfolding step
  all_new [] db = true
  all_new (command ∷ commands) db =
      let rest = all_new commands (step command db) in is_new command db && rest

  step-Projected :
      (command : Command) (db : CatalogDb)
      → is_new command db ≡ true
      → Projected db
      → Projected (step command db)
  unfolding step
  step-Projected (creating_restaurant context now id command) db new p =
      create_restaurant-Projected space context now id command db (ground arith) p
  step-Projected (updating_restaurant context now id expected_version changes) db new p =
      update_restaurant-Projected space context now id expected_version changes db p
  step-Projected (deleting_restaurant context now id) db new p =
      delete_restaurant-Projected context now id db p
  step-Projected (creating_menu_item context now id restaurant_id command) db new p =
      create_menu_item-Projected space context now id restaurant_id command db (ground arith) p
  step-Projected (updating_menu_item context now restaurant_id id expected_version changes) db new
        p =
      update_menu_item-Projected space context now restaurant_id id expected_version changes db p
  step-Projected (deleting_menu_item context now restaurant_id id) db new p =
      delete_menu_item-Projected context now restaurant_id id db p

  -- Where the outbox has brought the read model to the live rows and every new id is new, it does so
  -- after any further commands: no event throws, and the read rows are the live rows, in their order.
  pub run_commands-Projected :
      (commands : List Command) (db : CatalogDb)
      → all_new commands db ≡ true
      → Projected db
      → Projected (run_commands commands db)
  unfolding run_commands all_new
  run_commands-Projected [] db new p = p
  run_commands-Projected (command ∷ commands) db new p =
      run_commands-Projected commands (step command db) (ground arith)
        (step-Projected command db (ground arith) p)
