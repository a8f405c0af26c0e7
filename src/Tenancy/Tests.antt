-- ===== src/Tenancy/Tests.antt =====
-- A request that the gateway signs at the time 5; the keyed hash of the tests joins key and text.
use food_delivery_api.Common.{
  ℕ, zero, suc, ◌==◌, ◌≡◌, refl, none, some, Bool, true, [], ◌∷◌, ◌++◌, ok, err, false,
}
use food_delivery_api.Common.Chars.{Text, is_blank, same_text}
use food_delivery_api.Tenancy.Headers.{
  Headers, PropagatedIdentity, apply_trusted_identity_headers, first_header_value, join,
  parse_roles_header,
}
use food_delivery_api.Tenancy.Signature.{
  Crypto, EnforcementEnv, VerifierOptions, RequestContext, production_env, signature_mismatch,
  resolve_identity_enforcement, canonical_string, sign_identity, verify_signed, verify, intercept,
  is_uuid,
}
use food_delivery_api.Tenancy.Signed.{IsSigned, intercept-IsSigned, intercept-applied}
use food_delivery_api.Tenancy.Grpc.{
  grpc_canonical_string, sign_grpc_tenant, verify_signed_tenant, verify_tenant,
  verify_tenant-replayed,
}
use food_delivery_api.Tenancy.Identities.{signed_text-same}
use food_delivery_api.Tenancy.Roles.{can_activate, can_activate-applied, insufficient_role}

abbrev five : Text
five = 53 ∷ []

abbrev crypto : Crypto
crypto = record {
  hmac_sha256 = λ key text. key ++ text;
  from_hex = λ text. text;
  text_of = λ n. five;
}

abbrev space : ℕ → Bool
space c = c == 32

abbrev zeros : ℕ → Text
zeros zero = []
zeros (suc n) = 48 ∷ zeros n

-- 00000000-0000-1000-8000-000000000000
abbrev tenant : Text
tenant =
    zeros 8
    ++ (45 ∷ (zeros 4 ++ (45 ∷ (49 ∷ (zeros 3 ++ (45 ∷ (56 ∷ (zeros 3 ++ (45 ∷ zeros 12)))))))))

abbrev identity : PropagatedIdentity
identity = record { sub = 117 ∷ []; tenant_id = tenant; roles = (97 ∷ []) ∷ (98 ∷ []) ∷ [] }

abbrev no_headers : Headers
no_headers = record {
  tenant_id = none;
  user_id = none;
  roles = none;
  identity_ts = none;
  identity_sig = none;
}

abbrev key : Text
key = 107 ∷ []

abbrev env : EnforcementEnv
env = record { node_env = production_env; signing_key = some key; max_skew_ms = none }

abbrev options : VerifierOptions
options = record { key = some key; enforced = true; max_skew_ms = 60000 }

abbrev sent_headers : Headers
unfolding apply_trusted_identity_headers sign_identity canonical_string
sent_headers =
    apply_trusted_identity_headers crypto.text_of 5 no_headers identity
      (some (sign_identity crypto key))

abbrev reached : RequestContext
reached = record { tenant_id = tenant; actor = 117 ∷ []; roles = (97 ∷ []) ∷ (98 ∷ []) ∷ [] }

-- The request passes; with the headers of another user it does not.
checks :
    (intercept crypto space options sent_headers 9 ≡ ok reached)
    × (intercept crypto space options (record sent_headers { user_id = sent_headers.tenant_id }) 9
        ≡ err signature_mismatch)
unfolding intercept verify verify_signed canonical_string first_header_value parse_roles_header
    apply_trusted_identity_headers sign_identity is_uuid
checks = (refl, refl)

resolved : resolve_identity_enforcement env ≡ ok options
unfolding resolve_identity_enforcement
resolved = refl

valid : is_uuid tenant ≡ true
unfolding is_uuid
valid = refl

signed : is_blank (sign_identity crypto key identity 5) ≡ false
unfolding sign_identity
signed = refl

intercept-IsSigned_example :
    (k : Text) × (env.signing_key ≡ some k)
    × (proof : IsSigned crypto k options.max_skew_ms 9 sent_headers reached.tenant_id)
    × (reached.actor ≡ proof.sub)
    × (reached.roles ≡ parse_roles_header space (first_header_value sent_headers.roles))
intercept-IsSigned_example =
    intercept-IsSigned crypto space env options sent_headers 9 reached refl resolved checks.0

signed_text-same_example :
    (tenant ≡ tenant)
    × (identity.sub ≡ identity.sub)
    × (identity.roles ≡ identity.roles)
    × (five ≡ five)
signed_text-same_example =
    signed_text-same space identity identity five five refl refl refl refl refl

intercept-applied_example :
    intercept crypto space options sent_headers 9
    ≡ ok (record {
      tenant_id = tenant;
      actor = 117 ∷ [];
      roles = parse_roles_header space (some (join identity.roles));
    })
unfolding sent_headers apply_trusted_identity_headers
intercept-applied_example =
    intercept-applied crypto space no_headers identity key 60000 5 9 valid refl refl refl refl
      signed refl

-- A user with the roles a and b, on a route for b, and on one for c.
guarded :
    (can_activate space (some ((98 ∷ []) ∷ [])) sent_headers ≡ ok tt)
    × (can_activate space (some ((99 ∷ []) ∷ [])) sent_headers ≡ err insufficient_role)
unfolding can_activate first_header_value parse_roles_header apply_trusted_identity_headers
    sign_identity canonical_string
guarded = (refl, refl)

can_activate-applied_example :
    can_activate space (some ((99 ∷ []) ∷ (98 ∷ []) ∷ [])) (
      apply_trusted_identity_headers crypto.text_of 5 no_headers identity
        (some (sign_identity crypto key)))
    ≡ ok tt
can_activate-applied_example =
    can_activate-applied space crypto.text_of 5 no_headers identity
      (some (sign_identity crypto key)) (99 ∷ []) ((98 ∷ []) ∷ []) refl refl

-- A signed call passes at the time 9; a keyed hash that drops the text lets a replayed one through.
called :
    verify_tenant crypto options
      (some tenant)
      (some five)
      (some (sign_grpc_tenant crypto key tenant 5))
      9
    ≡ ok tt
unfolding verify_tenant verify_signed_tenant sign_grpc_tenant
called = refl

abbrev careless : Crypto
careless = record crypto { hmac_sha256 = λ key text. key }

replayed :
    verify_tenant careless options
      (some tenant)
      (some five)
      (some (sign_identity careless key identity 5))
      9
    ≡ ok tt
unfolding verify_tenant verify_signed_tenant sign_identity
replayed = refl

verify_tenant-replayed_example :
    (¬ (
      canonical_string tenant identity.sub (join identity.roles) five
      ≡ grpc_canonical_string tenant five))
    × (same_text key key ≡ true)
verify_tenant-replayed_example =
    verify_tenant-replayed careless key tenant five 60000 5 9 identity refl refl refl replayed
