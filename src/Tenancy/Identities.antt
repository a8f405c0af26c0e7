-- ===== src/Tenancy/Identities.antt =====
-- What a signature of an identity settles.
use food_delivery_api.Common.{ℕ, ◌≡◌, sym, ap, ◌∙◌, ◌&&◌, some, Bool, true, every}
use food_delivery_api.Common.Chars.{Text}
use food_delivery_api.Tenancy.Headers.{PropagatedIdentity, join, parse_roles_header}
use food_delivery_api.Tenancy.Roles.{is_role, parse_roles_header-join}
use food_delivery_api.Tenancy.Signature.{canonical_string}
use food_delivery_api.Tenancy.Signed.{is_one_line, canonical_string-same}

-- No field holds a line break.
abbrev pub is_plain : PropagatedIdentity → Bool
is_plain identity =
    is_one_line identity.tenant_id
    && (is_one_line identity.sub && is_one_line (join identity.roles))

-- The text that is signed for an identity, at the text of a time.
abbrev pub signed_text : PropagatedIdentity → Text → Text
unfolding canonical_string
signed_text identity ts = canonical_string identity.tenant_id identity.sub (join identity.roles) ts

-- Two identities with times have the same signed text only if they are the same in every field and in
-- their times, where no field holds a line break and no role has a comma, is empty or starts or ends
-- with white space.
pub signed_text-same :
    (space : ℕ → Bool) (identity other : PropagatedIdentity) (ts ts' : Text)
    → is_plain identity ≡ true
    → is_plain other ≡ true
    → every (is_role space) identity.roles ≡ true
    → every (is_role space) other.roles ≡ true
    → signed_text identity ts ≡ signed_text other ts'
    → (identity.tenant_id ≡ other.tenant_id)
      × (identity.sub ≡ other.sub)
      × (identity.roles ≡ other.roles)
      × (ts ≡ ts')
unfolding signed_text
signed_text-same space identity other ts ts' p q roles roles' h =
    let (tenants, subs, joined, times) =
      canonical_string-same identity.tenant_id identity.sub (join identity.roles) ts other.tenant_id
        other.sub (join other.roles) ts' p q h in
    (
      tenants,
      subs,
      sym (parse_roles_header-join space identity.roles roles)
          ∙ ap (λ s. parse_roles_header space (some s)) joined
          ∙ parse_roles_header-join space other.roles roles',
      times,
    )
