-- ===== src/Tenancy/Roles.antt =====
-- The guard of the roles that a route asks for: libs/shared/tenancy/src/roles.guard.ts. What the
-- reflector reads from the route is an argument.
use food_delivery_api.Common.{
  ℕ, ◌==◌, ◌≡◌, refl, ap, ◌∙◌, not, ◌&&◌, Option, none, some, Bool, true, false, List, [], ◌∷◌,
  ◌++◌, map, keep, any, every, Result, ok, err, arith, if◌then◌else◌,
}
use food_delivery_api.Common.Chars.{Text, same_text, is_blank, trim, is_trimmed, same_text-same}
use food_delivery_api.Tenancy.Headers.{
  Headers, PropagatedIdentity, Signer, comma, join, split, first_header_value, parse_roles_header,
  apply_trusted_identity_headers,
}
use food_delivery_api.Tenancy.Signature.{present}

-- The exceptions of the guard.
pub data Denial : Type 0 where
  missing_verified_identity insufficient_role : Denial

-- `required.some((role) => roles.includes(role))`
abbrev pub has_any_of : List Text → List Text → Bool
has_any_of required roles = any (λ role. any (same_text role) roles) required

abbrev check_roles : (ℕ → Bool) → List Text → Headers → Option Text → Result Denial (Unit {0})
check_roles space required headers none = err missing_verified_identity
check_roles space required headers (some sub) =
    if not (has_any_of required (parse_roles_header space (first_header_value headers.roles)))
    then err insufficient_role
    else ok tt

-- `RolesGuard.canActivate`
unfoldable pub can_activate : (ℕ → Bool) → Option (List Text) → Headers → Result Denial (Unit {0})
unfolding first_header_value parse_roles_header
can_activate space none headers = ok tt
can_activate space (some []) headers = ok tt
can_activate space (some (role ∷ more)) headers =
    check_roles space (role ∷ more) headers (present (first_header_value headers.user_id))

-- A text without the separator of the roles.
abbrev is_one_name : Text → Bool
is_one_name s = not (any (λ c. c == comma) s)

-- A role that the header can carry.
abbrev pub is_role : (ℕ → Bool) → Text → Bool
is_role space s = not (is_blank s) && (is_trimmed space s && is_one_name s)

split-one_name : (s : Text) → is_one_name s ≡ true → split s ≡ s ∷ []
split-one_name [] h = refl
split-one_name (c ∷ s) h = ground (arith, split-one_name s)

split-append : (s t : Text) → is_one_name s ≡ true → split (s ++ (comma ∷ t)) ≡ s ∷ split t
split-append [] t h = refl
split-append (c ∷ s) t h = ground (arith, split-append s t)

split-join :
    (space : ℕ → Bool) (role : Text) (roles : List Text)
    → every (is_role space) (role ∷ roles) ≡ true
    → split (join (role ∷ roles)) ≡ role ∷ roles
split-join space role [] h = split-one_name role (ground arith)
split-join space role (next ∷ roles) h =
    split-append role (join (next ∷ roles)) (ground arith)
    ∙ ap (λ rest. role ∷ rest) (split-join space next roles (ground arith))

-- Roles as the header carries them pass its reading unchanged.
kept :
    (space : ℕ → Bool) (roles : List Text)
    → every (is_role space) roles ≡ true
    → keep (λ role. not (is_blank role)) (map (trim space) roles) ≡ roles
kept space [] h = refl
kept space (role ∷ roles) h =
    ground (arith, same_text-same (trim space role) role, kept space roles)

join-not_blank :
    (space : ℕ → Bool) (role : Text) (roles : List Text)
    → is_role space role ≡ true
    → is_blank (join (role ∷ roles)) ≡ false
join-not_blank space [] roles h = ground arith
join-not_blank space (c ∷ s) [] h = refl
join-not_blank space (c ∷ s) (next ∷ roles) h = refl

pub parse_roles_header-join :
    (space : ℕ → Bool) (roles : List Text)
    → every (is_role space) roles ≡ true
    → parse_roles_header space (some (join roles)) ≡ roles
unfolding parse_roles_header
parse_roles_header-join space [] h = refl
parse_roles_header-join space (role ∷ roles) h = ground (
  arith,
  join-not_blank space role roles,
  split-join space role roles h,
  kept space (role ∷ roles) h,
)

-- Behind the gateway, signed or not, a route that asks for roles is open to exactly the users that
-- have one of them, where the user has a name and no role has a comma, is empty or starts or ends
-- with white space.
pub can_activate-applied :
    (space : ℕ → Bool) (text_of : ℕ → Text) (now : ℕ) (headers : Headers)
    (identity : PropagatedIdentity) (signer : Option Signer) (role : Text) (more : List Text)
    → is_blank identity.sub ≡ false
    → every (is_role space) identity.roles ≡ true
    → can_activate space
        (some (role ∷ more))
        (apply_trusted_identity_headers text_of now headers identity signer)
      ≡ (if has_any_of (role ∷ more) identity.roles then ok tt else err insufficient_role)
unfolding can_activate first_header_value apply_trusted_identity_headers
can_activate-applied space text_of now headers identity none role more named h =
    ground (arith, parse_roles_header-join space identity.roles h)
can_activate-applied space text_of now headers identity (some signer) role more named h =
    ground (arith, parse_roles_header-join space identity.roles h)
