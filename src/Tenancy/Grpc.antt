-- ===== src/Tenancy/Grpc.antt =====
-- The signature of a tenant in the metadata of a call over gRPC:
-- libs/shared/tenancy/src/grpc-identity-signature.ts. Its options have the fields of those over HTTP.
use food_delivery_api.Common.{
  ℕ, ◌≡◌, refl, not, ◌&&◌, ◌||◌, Option, some, true, false, [], ◌∷◌, ◌++◌, Result, ok, arith,
  if◌then◌else◌,
}
use food_delivery_api.Common.Chars.{Text, same_text, same_text_refl, is_blank}
use food_delivery_api.Common.Throws.{◌>>=◌, ◌>>◌}
use food_delivery_api.Tenancy.Headers.{PropagatedIdentity, join}
use food_delivery_api.Tenancy.Signature.{
  Crypto, VerifierOptions, newline, present, is_numeric, decimal, is_outside, or_refuse, refuse_if,
  canonical_string, sign_identity,
}
use food_delivery_api.Tenancy.Signed.{is_one_line, same-line}

-- The reasons of a `GrpcTenantVerification` that is not ok.
pub data GrpcRefusal : Type 0 where
  signing_key_not_configured missing_tenant_id non_numeric_timestamp missing_signature : GrpcRefusal
  timestamp_outside_skew signature_mismatch : GrpcRefusal

-- 'grpc'
abbrev grpc : Text
grpc = 103 ∷ 114 ∷ 112 ∷ 99 ∷ []

-- `canonicalString`, on the text of the time.
abbrev pub grpc_canonical_string : Text → Text → Text
grpc_canonical_string tenant_id ts = grpc ++ (newline ∷ (tenant_id ++ (newline ∷ ts)))

broken_line : (a b : Text) → is_one_line (a ++ (newline ∷ b)) ≡ false
broken_line [] b = refl
broken_line (c ∷ a) b = ground (arith, broken_line a b)

-- Where no field holds a line break, the text of an identity, of four lines, is not the text of a
-- call, of three.
canonical_string-grpc_canonical_string :
    (tenant_id sub roles ts called called_ts : Text)
    → (is_one_line tenant_id && (is_one_line sub && is_one_line roles)) ≡ true
    → (is_one_line called && is_one_line called_ts) ≡ true
    → ¬ (canonical_string tenant_id sub roles ts ≡ grpc_canonical_string called called_ts)
unfolding canonical_string
canonical_string-grpc_canonical_string tenant_id sub roles ts called called_ts p q h =
    let (tenants, rest) = same-line tenant_id grpc _ _ (ground arith) (ground arith) h in
    let (subs, more) = same-line sub called _ _ (ground arith) (ground arith) rest in
    ground (arith, broken_line roles ts)

module _ (crypto : Crypto) where
  -- `signGrpcTenant`
  unfoldable pub sign_grpc_tenant : Text → Text → ℕ → Text
  sign_grpc_tenant key tenant_id ts =
      crypto.hmac_sha256 key (grpc_canonical_string tenant_id (crypto.text_of ts))

  -- What an enforced verifier does with its key.
  unfoldable pub verify_signed_tenant :
      Text → ℕ → Option Text → Option Text → Option Text → ℕ → Result GrpcRefusal (Unit {0})
  verify_signed_tenant key max_skew tenant_value ts_text sig_text now = do
    tenant_id ← or_refuse (present tenant_value) missing_tenant_id
    ts_value ← or_refuse (present ts_text) non_numeric_timestamp
    refuse_if (not (is_numeric ts_value)) non_numeric_timestamp
    sig_value ← or_refuse (present sig_text) missing_signature
    refuse_if (is_outside max_skew now (decimal ts_value)) timestamp_outside_skew
    refuse_if
        (not (
          same_text
            (crypto.from_hex (
              crypto.hmac_sha256 key
                (grpc_canonical_string tenant_id (crypto.text_of (decimal ts_value)))))
            (crypto.from_hex sig_value)))
        signature_mismatch

  -- `GrpcTenantVerifier.verify`
  unfoldable pub verify_tenant :
      VerifierOptions → Option Text → Option Text → Option Text → ℕ → Result GrpcRefusal (Unit {0})
  unfolding verify_signed_tenant
  verify_tenant options tenant_value ts_text sig_text now =
      if not options.enforced
      then ok tt
      else or_refuse (present options.key) signing_key_not_configured >>= λ key.
          verify_signed_tenant key options.max_skew_ms tenant_value ts_text sig_text now

  -- A call with the tenant, the time and the signature of its caller passes within the skew.
  pub verify_tenant-signed :
      (key tenant_id : Text) (max_skew sent now : ℕ)
      → is_blank key ≡ false
      → is_blank tenant_id ≡ false
      → (is_blank (crypto.text_of sent) || not (is_numeric (crypto.text_of sent))) ≡ false
      → decimal (crypto.text_of sent) ≡ sent
      → is_blank (sign_grpc_tenant key tenant_id sent) ≡ false
      → is_outside max_skew now sent ≡ false
      → verify_tenant
          (record { key = some key; enforced = true; max_skew_ms = max_skew })
          (some tenant_id)
          (some (crypto.text_of sent))
          (some (sign_grpc_tenant key tenant_id sent))
          now
        ≡ ok tt
  unfolding verify_tenant verify_signed_tenant sign_grpc_tenant
  verify_tenant-signed key tenant_id max_skew sent now keyed named text number signed fresh =
      ground (arith, same_text_refl (crypto.from_hex (sign_grpc_tenant key tenant_id sent)))

  -- Where no field holds a line break, an enforced verifier of calls takes the signature of an
  -- identity over HTTP only if the keyed hashes of two texts that differ agree.
  pub verify_tenant-replayed :
      (key tenant_id ts_text : Text) (max_skew sent now : ℕ) (identity : PropagatedIdentity)
      → is_blank key ≡ false
      → (is_one_line identity.tenant_id
          && (is_one_line identity.sub && is_one_line (join identity.roles)))
        ≡ true
      → (is_one_line tenant_id && is_one_line (crypto.text_of (decimal ts_text))) ≡ true
      → verify_tenant
          (record { key = some key; enforced = true; max_skew_ms = max_skew })
          (some tenant_id)
          (some ts_text)
          (some (sign_identity crypto key identity sent))
          now
        ≡ ok tt
      → (¬ (
          canonical_string identity.tenant_id identity.sub
            (join identity.roles)
            (crypto.text_of sent)
          ≡ grpc_canonical_string tenant_id (crypto.text_of (decimal ts_text))))
        × (same_text
              (crypto.from_hex (
                crypto.hmac_sha256 key
                  (grpc_canonical_string tenant_id (crypto.text_of (decimal ts_text)))))
              (crypto.from_hex (
                crypto.hmac_sha256 key (
                  canonical_string identity.tenant_id identity.sub
                    (join identity.roles)
                    (crypto.text_of sent))))
            ≡ true)
  unfolding verify_tenant verify_signed_tenant sign_identity
  verify_tenant-replayed key tenant_id ts_text max_skew sent now identity keyed p q h =
      (canonical_string-grpc_canonical_string _ _ _ _ _ _ p q, ground arith)
