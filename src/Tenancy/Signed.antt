-- ===== src/Tenancy/Signed.antt =====
-- What the interceptor accepts, and what the gateway sends.
use food_delivery_api.Common.{
  ℕ, ◌==◌, ◌≡◌, refl, ap, ◌∙◌, not, ◌&&◌, ◌||◌, some, Bool, true, false, [], ◌∷◌, ◌++◌, any, ok,
  arith, inl, inr, Option-cases,
}
use food_delivery_api.Common.Chars.{Text, same_text, same_text_refl, is_blank}
use food_delivery_api.Tenancy.Headers.{
  Headers, PropagatedIdentity, first_header_value, join, parse_roles_header,
  apply_trusted_identity_headers,
}
use food_delivery_api.Tenancy.Signature.{
  Crypto, VerifierOptions, EnforcementEnv, RequestContext, newline, canonical_string, present,
  or_empty, is_numeric, decimal, is_outside, is_uuid, is_production, resolve_identity_enforcement,
  sign_identity, verify_signed, verify, intercept,
}

-- Headers that carry a fresh signature of the identity that they name, under the key.
pub record IsSigned (crypto : Crypto) (key : Text) (max_skew now : ℕ) (headers : Headers)
    (tenant_id : Text) : Type 0 where
  pub sub : Text
  pub ts : Text
  pub signature : Text
  pub has_tenant : first_header_value headers.tenant_id ≡ some tenant_id
  pub has_sub : first_header_value headers.user_id ≡ some sub
  pub named : is_blank sub ≡ false
  pub has_ts : first_header_value headers.identity_ts ≡ some ts
  pub has_signature : first_header_value headers.identity_sig ≡ some signature
  pub numeric : is_numeric ts ≡ true
  pub fresh : is_outside max_skew now (decimal ts) ≡ false
  pub signed :
      same_text
        (crypto.from_hex (
          crypto.hmac_sha256 key (
            canonical_string tenant_id sub
              (or_empty (first_header_value headers.roles))
              (crypto.text_of (decimal ts)))))
        (crypto.from_hex signature)
      ≡ true

module _ (crypto : Crypto) where
  verified-IsSigned :
      (key : Text) (max_skew : ℕ) (headers : Headers) (now : ℕ) (tenant_id : Text)
      → first_header_value headers.tenant_id ≡ some tenant_id
      → verify_signed crypto key max_skew headers now ≡ ok tt
      → IsSigned crypto key max_skew now headers tenant_id
  unfolding verify_signed
  verified-IsSigned key max_skew headers now tenant_id t h =
      elim (Option-cases (first_header_value headers.user_id)) [
        | inl n ↦ ground arith
        | inr (sub, has_sub) ↦ elim (Option-cases (first_header_value headers.identity_ts)) [
          | inl n ↦ ground arith
          | inr (ts, has_ts) ↦ elim (Option-cases (first_header_value headers.identity_sig)) [
            | inl n ↦ ground arith
            | inr (signature, has_signature) ↦ record {
              sub = sub;
              ts = ts;
              signature = signature;
              has_tenant = t;
              has_sub = has_sub;
              named = ground arith;
              has_ts = has_ts;
              has_signature = has_signature;
              numeric = ground arith;
              fresh = ground arith;
              signed = ground arith;
            }
          ]
        ]
      ]

  -- A verifier that production resolves to is enforced, under a key that is not empty.
  production-enforced :
      (env : EnforcementEnv) (options : VerifierOptions)
      → is_production env.node_env ≡ true
      → resolve_identity_enforcement env ≡ ok options
      → (key : Text) × (env.signing_key ≡ some key)
        × (present options.key ≡ some key)
        × (options.enforced ≡ true)
  unfolding resolve_identity_enforcement
  production-enforced env options p r = elim (Option-cases env.signing_key) [
    | inl n ↦ ground arith
    | inr (key, k) ↦ (key, k, ground arith, ground arith)
  ]

  -- In production, where the configuration resolves, a request that reaches a handler carries a fresh
  -- signature, by the configured key, of the tenant that the handler runs for, of its user and of the
  -- roles, and the handler runs with that user and those roles.
  pub intercept-IsSigned :
      (space : ℕ → Bool) (env : EnforcementEnv) (options : VerifierOptions) (headers : Headers)
      (now : ℕ) (context : RequestContext)
      → is_production env.node_env ≡ true
      → resolve_identity_enforcement env ≡ ok options
      → intercept crypto space options headers now ≡ ok context
      → (key : Text) × (env.signing_key ≡ some key)
        × (proof : IsSigned crypto key options.max_skew_ms now headers context.tenant_id)
        × (context.actor ≡ proof.sub)
        × (context.roles ≡ parse_roles_header space (first_header_value headers.roles))
  unfolding intercept verify
  intercept-IsSigned space env options headers now context p r h =
      let (key, k, there, enforced) = production-enforced env options p r in
      elim (Option-cases (first_header_value headers.tenant_id)) [
        | inl n ↦ ground arith
        | inr (tenant_id, t) ↦
            let same : tenant_id ≡ context.tenant_id = ground arith in
            let passed : verify_signed crypto key options.max_skew_ms headers now ≡ ok tt =
              ground arith in
            let proof =
              verified-IsSigned key options.max_skew_ms headers now context.tenant_id
                (t ∙ ap (λ x. some x) same) passed in
            (key, k, proof, ground (arith, proof.has_sub, proof.named), ground arith)
      ]

-- A text without the separator of the canonical string.
abbrev pub is_one_line : Text → Bool
is_one_line s = not (any (λ c. c == newline) s)

pub same-line :
    (a b rest more : Text)
    → is_one_line a ≡ true
    → is_one_line b ≡ true
    → a ++ (newline ∷ rest) ≡ b ++ (newline ∷ more)
    → (a ≡ b) × (rest ≡ more)
same-line [] [] rest more p q h = (refl, ground arith)
same-line [] (d ∷ b) rest more p q h = ground arith
same-line (c ∷ a) [] rest more p q h = ground arith
same-line (c ∷ a) (d ∷ b) rest more p q h =
    let (first, others) = same-line a b rest more (ground arith) (ground arith) (ground arith) in
    (ground (arith, first), others)

-- Where no field holds a line break, two signed texts are the same only if their tenants, users,
-- joined roles and times are.
pub canonical_string-same :
    (tenant_id sub roles ts tenant_id' sub' roles' ts' : Text)
    → (is_one_line tenant_id && (is_one_line sub && is_one_line roles)) ≡ true
    → (is_one_line tenant_id' && (is_one_line sub' && is_one_line roles')) ≡ true
    → canonical_string tenant_id sub roles ts ≡ canonical_string tenant_id' sub' roles' ts'
    → (tenant_id ≡ tenant_id') × (sub ≡ sub') × (roles ≡ roles') × (ts ≡ ts')
unfolding canonical_string
canonical_string-same tenant_id sub roles ts tenant_id' sub' roles' ts' p q h =
    let (tenants, rest) = same-line tenant_id tenant_id' _ _ (ground arith) (ground arith) h in
    let (subs, more) = same-line sub sub' _ _ (ground arith) (ground arith) rest in
    let (role, times) = same-line roles roles' ts ts' (ground arith) (ground arith) more in
    (tenants, subs, role, times)

uuid-not_blank : (s : Text) → is_uuid s ≡ true → is_blank s ≡ false
unfolding is_uuid
uuid-not_blank [] h = ground arith
uuid-not_blank (c ∷ s) h = refl

module _ (crypto : Crypto) where
  -- What the gateway sends for an identity, a service under the same key lets through within the
  -- allowed skew, and runs the handler for that tenant and that user.
  pub intercept-applied :
      (space : ℕ → Bool) (headers : Headers) (identity : PropagatedIdentity) (key : Text)
      (max_skew sent now : ℕ)
      → is_uuid identity.tenant_id ≡ true
      → is_blank identity.sub ≡ false
      → is_blank key ≡ false
      → (is_blank (crypto.text_of sent) || not (is_numeric (crypto.text_of sent))) ≡ false
      → decimal (crypto.text_of sent) ≡ sent
      → is_blank (sign_identity crypto key identity sent) ≡ false
      → is_outside max_skew now sent ≡ false
      → intercept crypto space
          (record { key = some key; enforced = true; max_skew_ms = max_skew })
          (apply_trusted_identity_headers crypto.text_of sent headers identity
            (some (sign_identity crypto key)))
          now
        ≡ ok (record {
          tenant_id = identity.tenant_id;
          actor = identity.sub;
          roles = parse_roles_header space (some (join identity.roles));
        })
  unfolding intercept verify verify_signed apply_trusted_identity_headers first_header_value
      sign_identity
  intercept-applied space headers identity key max_skew sent now uuid sub keyed text number signed
        fresh =
      ground (
        arith,
        uuid-not_blank identity.tenant_id uuid,
        same_text_refl (crypto.from_hex (sign_identity crypto key identity sent)),
      )
