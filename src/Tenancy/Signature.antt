-- ===== src/Tenancy/Signature.antt =====
-- The signature of the identity that the gateway passes on, and the interceptor that checks it:
-- libs/shared/tenancy/src/identity-signature.ts and trusted-identity.interceptor.ts. The keyed hash,
-- the reading of hexadecimal bytes and `String` of a time belong to the platform and are arguments.
-- A time in a header is read exactly, as it is below 2 ^ 53.
use food_delivery_api.Common.{
  ℕ, zero, suc, ◌+◌, ◌-◌, ◌*◌, ◌==◌, ltb, leb, not, ◌&&◌, ◌||◌, Option, none, some, Bool, true,
  false, List, [], ◌∷◌, ◌++◌, every, Result, ok, err, if◌then◌else◌,
}
use food_delivery_api.Common.Chars.{Text, same_text, is_blank}
use food_delivery_api.Common.Throws.{◌>>=◌, ◌>>◌}
use food_delivery_api.Tenancy.Headers.{
  Headers, Signer, first_header_value, join, parse_roles_header,
}

pub record Crypto : Type 0 where
  pub hmac_sha256 : Text → Text → Text
  pub from_hex : Text → List ℕ
  pub text_of : ℕ → Text

-- The reasons of a refusal: those of the verifier, and a tenant that is no UUID.
pub data Refusal : Type 0 where
  signing_key_not_configured missing_identity_headers non_numeric_timestamp missing_signature :
      Refusal
  timestamp_outside_skew signature_mismatch invalid_tenant : Refusal

abbrev pub newline : ℕ
newline = 10

-- `canonicalString`, on the text of the time.
unfoldable pub canonical_string : Text → Text → Text → Text → Text
canonical_string tenant_id sub roles_joined ts =
    tenant_id ++ (newline ∷ (sub ++ (newline ∷ (roles_joined ++ (newline ∷ ts)))))

-- `!value` of an optional text.
abbrev pub present : Option Text → Option Text
present none = none
present (some s) = if is_blank s then none else some s

abbrev pub or_empty : Option Text → Text
or_empty none = []
or_empty (some s) = s

abbrev is_digit : ℕ → Bool
is_digit c = leb 48 c && leb c 57

-- `/^\d+$/.test(value)`, for a value that is not empty.
abbrev pub is_numeric : Text → Bool
is_numeric s = every is_digit s

-- `Number(value)` of a text of digits.
abbrev pub decimal_from : ℕ → Text → ℕ
decimal_from acc [] = acc
decimal_from acc (c ∷ s) = decimal_from (acc * 10 + (c - 48)) s

abbrev pub decimal : Text → ℕ
decimal s = decimal_from 0 s

-- `Math.abs(now - ts) > maxSkewMs`
abbrev pub is_outside : ℕ → ℕ → ℕ → Bool
is_outside max_skew now ts = ltb max_skew ((now - ts) + (ts - now))

-- `IdentitySignatureVerifierOptions`
pub record VerifierOptions : Type 0 where
  pub key : Option Text
  pub enforced : Bool
  pub max_skew_ms : ℕ

-- `NODE_ENV`
pub data NodeEnv : Type 0 where
  test_env production_env other_env : NodeEnv

-- `IdentityEnforcementEnv`; the skew is the number of its variable where that is finite and positive.
pub record EnforcementEnv : Type 0 where
  pub node_env : NodeEnv
  pub signing_key : Option Text
  pub max_skew_ms : Option ℕ

pub data UnsetKey : Type 0 where
  unset_key : UnsetKey

abbrev is_test : NodeEnv → Bool
is_test test_env = true
is_test _ = false

abbrev pub is_production : NodeEnv → Bool
is_production production_env = true
is_production _ = false

abbrev has_key : Option Text → Bool
has_key none = false
has_key (some key) = not (is_blank key)

abbrev skew_or_default : Option ℕ → ℕ
skew_or_default none = 60000
skew_or_default (some max_skew) = max_skew

-- `resolveIdentityEnforcement`, without its warning.
unfoldable pub resolve_identity_enforcement : EnforcementEnv → Result UnsetKey VerifierOptions
resolve_identity_enforcement env =
    if not (is_test env.node_env) && not (has_key env.signing_key)
    then if is_production env.node_env
      then err unset_key
      else ok (record {
        key = env.signing_key;
        enforced = false;
        max_skew_ms = skew_or_default env.max_skew_ms;
      })
    else ok (record {
      key = env.signing_key;
      enforced = not (is_test env.node_env) && has_key env.signing_key;
      max_skew_ms = skew_or_default env.max_skew_ms;
    })

-- A hexadecimal digit, of either case.
abbrev is_hex : ℕ → Bool
is_hex c = is_digit c || ((leb 97 c && leb c 102) || (leb 65 c && leb c 70))

abbrev is_dash : ℕ → Bool
is_dash c = c == 45

abbrev is_version : ℕ → Bool
is_version c = leb 49 c && leb c 53

abbrev is_variant : ℕ → Bool
is_variant c = (c == 56 || c == 57) || ((c == 97 || c == 98) || (c == 65 || c == 66))

abbrev matches : List (ℕ → Bool) → Text → Bool
matches [] [] = true
matches [] (c ∷ s) = false
matches (test ∷ tests) [] = false
matches (test ∷ tests) (c ∷ s) = test c && matches tests s

abbrev hex_digits : ℕ → List (ℕ → Bool)
hex_digits zero = []
hex_digits (suc n) = is_hex ∷ hex_digits n

-- `UUID_REGEX`
unfoldable pub is_uuid : Text → Bool
is_uuid s =
    matches
      (hex_digits 8
        ++ (is_dash
            ∷ (hex_digits 4
                ++ (is_dash
                    ∷ (is_version
                        ∷ (hex_digits 3
                            ++ (is_dash
                                ∷ (is_variant ∷ (hex_digits 3 ++ (is_dash ∷ hex_digits 12))))))))))
      s

-- `TenantRequestContext`, with texts.
pub record RequestContext : Type 0 where
  pub tenant_id : Text
  pub actor : Text
  pub roles : List Text

-- 'anonymous'
abbrev anonymous : Text
anonymous = 97 ∷ 110 ∷ 111 ∷ 110 ∷ 121 ∷ 109 ∷ 111 ∷ 117 ∷ 115 ∷ []

abbrev actor_of : Option Text → Text
actor_of none = anonymous
actor_of (some sub) = sub

-- `if (!value) return { ok: false, reason }`
abbrev pub or_refuse {ℓ κ} : {A : Type ℓ} {R : Type κ} → Option A → R → Result R A
or_refuse none reason = err reason
or_refuse (some a) reason = ok a

abbrev pub refuse_if {κ} : {R : Type κ} → Bool → R → Result R (Unit {0})
refuse_if true reason = err reason
refuse_if false reason = ok tt

module _ (crypto : Crypto) where
  unfoldable pub sign_identity : Text → Signer
  unfolding canonical_string
  sign_identity key identity ts =
      crypto.hmac_sha256 key
        (canonical_string identity.tenant_id identity.sub (join identity.roles) (crypto.text_of ts))

  -- What an enforced verifier does with its key.
  unfoldable pub verify_signed : Text → ℕ → Headers → ℕ → Result Refusal (Unit {0})
  unfolding first_header_value canonical_string
  verify_signed key max_skew headers now = do
    tenant_id ← or_refuse (present (first_header_value headers.tenant_id)) missing_identity_headers
    sub ← or_refuse (present (first_header_value headers.user_id)) missing_identity_headers
    ts_value ← or_refuse (present (first_header_value headers.identity_ts)) non_numeric_timestamp
    refuse_if (not (is_numeric ts_value)) non_numeric_timestamp
    sig_value ← or_refuse (present (first_header_value headers.identity_sig)) missing_signature
    refuse_if (is_outside max_skew now (decimal ts_value)) timestamp_outside_skew
    refuse_if
        (not (
          same_text
            (crypto.from_hex (
              crypto.hmac_sha256 key (
                canonical_string tenant_id sub (or_empty (first_header_value headers.roles))
                  (crypto.text_of (decimal ts_value)))))
            (crypto.from_hex sig_value)))
        signature_mismatch

  -- `verify`
  unfoldable pub verify : VerifierOptions → Headers → ℕ → Result Refusal (Unit {0})
  unfolding verify_signed
  verify options headers now =
      if not options.enforced
      then ok tt
      else or_refuse (present options.key) signing_key_not_configured >>= λ key.
          verify_signed key options.max_skew_ms headers now

  -- `TrustedIdentityInterceptor.intercept`, for a request over HTTP: the context that the handler runs
  -- in.
  unfoldable pub intercept :
      (ℕ → Bool) → VerifierOptions → Headers → ℕ → Result Refusal RequestContext
  unfolding verify first_header_value parse_roles_header is_uuid
  intercept space options headers now = do
    tenant_id ← or_refuse (present (first_header_value headers.tenant_id)) invalid_tenant
    refuse_if (not (is_uuid tenant_id)) invalid_tenant
    verify options headers now
    ok (record {
      tenant_id = tenant_id;
      actor = actor_of (present (first_header_value headers.user_id));
      roles = parse_roles_header space (first_header_value headers.roles);
    })
