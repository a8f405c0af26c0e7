-- ===== src/Tenancy/Headers.antt =====
-- The headers that carry the identity of a request: libs/shared/tenancy/src/identity-headers.ts. A
-- text is the list of its code units.
use food_delivery_api.Common.{
  ℕ, ◌==◌, not, Option, none, some, Bool, List, [], ◌∷◌, ◌++◌, map, keep, if◌then◌else◌,
}
use food_delivery_api.Common.Chars.{Text, is_blank, trim}

-- `string | string[]`
pub data HeaderValue : Type 0 where
  single : Text → HeaderValue
  several : List Text → HeaderValue

-- `headers[name]` of the five headers; none is `undefined`.
pub record Headers : Type 0 where
  pub tenant_id : Option HeaderValue
  pub user_id : Option HeaderValue
  pub roles : Option HeaderValue
  pub identity_ts : Option HeaderValue
  pub identity_sig : Option HeaderValue

-- `PropagatedIdentity`
pub record PropagatedIdentity : Type 0 where
  pub sub : Text
  pub tenant_id : Text
  pub roles : List Text

unfoldable pub first_header_value : Option HeaderValue → Option Text
first_header_value none = none
first_header_value (some (single s)) = some s
first_header_value (some (several [])) = none
first_header_value (some (several (s ∷ more))) = some s

abbrev pub comma : ℕ
comma = 44

-- `roles.join(',')`
abbrev pub join : List Text → Text
join [] = []
join (role ∷ []) = role
join (role ∷ (next ∷ roles)) = role ++ (comma ∷ join (next ∷ roles))

abbrev add_to_first : ℕ → List Text → List Text
add_to_first c [] = (c ∷ []) ∷ []
add_to_first c (s ∷ more) = (c ∷ s) ∷ more

-- `value.split(',')`
abbrev pub split : Text → List Text
split [] = [] ∷ []
split (c ∷ s) = let rest = split s in if c == comma then [] ∷ rest else add_to_first c rest

-- `parseRolesHeader`, on the value that is there or empty.
unfoldable pub parse_roles_header : (ℕ → Bool) → Option Text → List Text
parse_roles_header space none = []
parse_roles_header space (some value) =
    if is_blank value
    then []
    else keep (λ role. not (is_blank role)) (map (trim space) (split value))

-- The signature of an identity at a time.
abbrev pub Signer : Type 0
Signer = PropagatedIdentity → ℕ → Text

-- `applyTrustedIdentityHeaders`; the clock and `String` of a time are arguments.
unfoldable pub apply_trusted_identity_headers :
    (ℕ → Text) → ℕ → Headers → PropagatedIdentity → Option Signer → Headers
apply_trusted_identity_headers text_of now headers identity none = record headers {
  tenant_id = some (single identity.tenant_id);
  user_id = some (single identity.sub);
  roles = some (single (join identity.roles));
}
apply_trusted_identity_headers text_of now headers identity (some signer) = record headers {
  tenant_id = some (single identity.tenant_id);
  user_id = some (single identity.sub);
  roles = some (single (join identity.roles));
  identity_ts = some (single (text_of now));
  identity_sig = some (single (signer identity now));
}
