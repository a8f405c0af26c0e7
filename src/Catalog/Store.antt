-- ===== src/Catalog/Store.antt =====
-- The tables that the commands of the catalog write, by the entities of
-- apps/catalog/src/infrastructure/persistence/entities, and the adapters of the outbox and of the
-- audit log. The version column counts the writes of a row: it is 1 in a new row, and an update of the
-- row or a soft deletion adds 1.
use food_delivery_api.Common.{
  ℕ, suc, Option, none, some, Bool, true, false, List, [], ◌∷◌, ◌++◌, Action, ◌>>=◌, modify,
}
use food_delivery_api.Common.Chars.{Text}
use food_delivery_api.Catalog.Events.{OutboxEntry, Payload}
use food_delivery_api.Catalog.Names.{CatalogError, Entity, tenant_context_not_set}
use food_delivery_api.Tenancy.{Context, get_tenant_id_or_throw, get_actor}

-- `RestaurantOrmEntity`
pub record RestaurantRow : Type 0 where
  pub id : ℕ
  pub tenant_id : ℕ
  pub name : Text
  pub description : Option Text
  pub is_active : Bool
  pub version : ℕ
  pub created_at : ℕ
  pub updated_at : ℕ
  pub deleted_at : Option ℕ

-- `MenuItemOrmEntity`
pub record MenuItemRow : Type 0 where
  pub id : ℕ
  pub tenant_id : ℕ
  pub restaurant_id : ℕ
  pub name : Text
  pub description : Option Text
  pub price_cents : ℕ
  pub is_available : Bool
  pub version : ℕ
  pub created_at : ℕ
  pub updated_at : ℕ
  pub deleted_at : Option ℕ

pub record OutboxRow : Type 0 where
  pub entry : OutboxEntry
  pub tenant_id : ℕ

-- `AuditAction`
pub data AuditAction : Type 0 where
  created updated deleted : AuditAction

-- `AuditEntry`
pub record AuditEntry : Type 0 where
  pub action : AuditAction
  pub entity : Entity
  pub entity_id : ℕ
  pub before : Option Payload
  pub after : Option Payload

pub record AuditRow : Type 0 where
  pub entry : AuditEntry
  pub tenant_id : ℕ
  pub actor : ℕ

-- The tables of the write side.
pub record CatalogDb : Type 0 where
  pub restaurants : List RestaurantRow
  pub menu_items : List MenuItemRow
  pub outbox : List OutboxRow
  pub audit_log : List AuditRow

abbrev pub CatalogAction : Type 0 → Type 0
CatalogAction A = Action CatalogDb CatalogError A

-- `deleted_at IS NULL`
abbrev pub is_null : Option ℕ → Bool
is_null none = true
is_null (some t) = false

-- `this.props.version ?? 1`
abbrev pub version_or_first : Option ℕ → ℕ
version_or_first none = 1
version_or_first (some version) = version

-- The version that a save writes, over the one that is there.
abbrev pub next_version : Option ℕ → ℕ
next_version none = 1
next_version (some version) = suc version

-- `TypeOrmOutboxAdapter.write`
unfoldable pub write : Context → OutboxEntry → CatalogAction (Unit {0})
write context entry = do
  tenant_id ← get_tenant_id_or_throw tenant_context_not_set context
  modify
      λ db. record db { outbox = db.outbox ++ record { entry = entry; tenant_id = tenant_id } ∷ [] }

-- `TypeOrmAuditAdapter.record`
unfoldable pub record_audit : Context → AuditEntry → CatalogAction (Unit {0})
record_audit context entry = do
  tenant_id ← get_tenant_id_or_throw tenant_context_not_set context
  modify λ db. record db {
    audit_log =
        db.audit_log
        ++ record { entry = entry; tenant_id = tenant_id; actor = get_actor context } ∷ [];
  }
