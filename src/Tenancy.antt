-- ===== src/Tenancy.antt =====
-- The context of a request, for the code that reads its tenant:
-- libs/shared/tenancy/src/als-tenant-context.adapter.ts and tenant-context.port.ts. The context that
-- the storage of the request holds is an argument; the texts of actors are numbers, 0 for 'system'.
pub mod Grpc
pub mod Headers
pub mod Identities
pub mod Roles
pub mod Signature
pub mod Signed
pub mod Tests
use food_delivery_api.Common.{ℕ, Option, none, some, List, String, ok, err, Action}

-- `TenantRequestContext`
pub record TenantRequestContext : Type 0 where
  pub tenant_id : ℕ
  pub actor : ℕ
  pub roles : List String

-- `storage.getStore()`: none where the call runs outside of a request.
abbrev pub Context : Type 0
Context = Option TenantRequestContext

abbrev pub get_tenant_id_or_throw {ℓ κ} : {S : Type ℓ} {E : Type κ} → E → Context → Action S E ℕ
get_tenant_id_or_throw not_set none s = (err not_set, s)
get_tenant_id_or_throw not_set (some context) s = (ok context.tenant_id, s)

abbrev pub system : ℕ
system = 0

abbrev pub get_actor : Context → ℕ
get_actor none = system
get_actor (some context) = context.actor
