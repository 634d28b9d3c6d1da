-- ===== src/Signing.antt =====
-- `SignAuthorization` and `RecoverAuthorizationSigner` of internal/eip3009/types.go,
-- `VerifySignedAuthorization` of eip712.go and `SignatureBytes` of json.go. The indices and slices of a
-- signature panic where they are out of range.
pub mod RoundTrip
pub mod Total
pub mod Normalize
mod Examples
use eip.Prelude.{
  ℕ, ◌+◌, ◌-◌, ◌%◌, Bool, ◌&&◌, ◌||◌, [], ◌∷◌, ◌++◌, Option, none, some, Bytes, ◌==◌, leb, length,
  if◌then◌else◌, bytes_eq, get_elem?, take, drop, not,
}
use eip.Outcome.{
  signature_required, signed_required, key_required, invalid_v, recovers_other, Outcome, Checked,
  ok, err, panic, ◌>>=◌, ◌>>◌, reject,
}
use eip.Types.{
  Address, Domain, Authorization, Signature, SignedAuthorization, validate_domain,
  validate_authorization, signer_address,
}
use eip.Ethereum.{PrivateKey, Ethereum}
use eip.Eip712.{typed_data_hash}

abbrev pub or_panic : Option ℕ → Outcome ℕ
or_panic none = panic
or_panic (some c) = ok c

-- `b[i]`
abbrev pub byte_at : Bytes → ℕ → Outcome ℕ
byte_at b i = or_panic (get_elem? b i)

-- `b[lo:hi]`
abbrev pub slice : Bytes → ℕ → ℕ → Outcome Bytes
slice b lo hi = if leb lo hi && leb hi (length b) then ok (take (hi - lo) (drop lo b)) else panic

-- The byte of the recovery id that `RecoverAuthorizationSigner` hands to `SigToPub`.
unfoldable pub recovery_byte : ℕ → Outcome ℕ
recovery_byte v =
    if v == 27 || v == 28 then ok (v - 27) else if v == 0 || v == 1 then ok v else err (invalid_v v)

-- `SignatureBytes`
unfoldable pub signature_bytes : Signature → Bytes
signature_bytes sig = sig.r ++ sig.s ++ sig.v ∷ []

module _ (eth : Ethereum) where
  -- The signature that `SignAuthorization` takes out of the bytes of `crypto.Sign`.
  unfoldable pub split_signature : Bytes → Outcome Signature
  split_signature signature = do
    v ← byte_at signature 64
    r ← slice signature 0 32
    s ← slice signature 32 64
    ok (record { v = (v + 27) % 256; r = eth.bytes_to_hash r; s = eth.bytes_to_hash s })

  unfoldable pub sign_authorization :
      Domain → Authorization → Option PrivateKey → Outcome SignedAuthorization
  sign_authorization domain auth none = err key_required
  sign_authorization domain auth (some private_key) = do
    validate_domain domain
    validate_authorization auth
    hash ← typed_data_hash eth domain auth
    signature ← eth.sign hash private_key
    parts ← split_signature signature
    ok (record { domain = domain; authorization = auth; signature = some parts })

  -- The part of `RecoverAuthorizationSigner` behind its nil checks.
  unfoldable pub recover_signature : Domain → Authorization → Signature → Outcome Address
  recover_signature domain auth signature = do
    hash ← typed_data_hash eth domain auth
    v ← recovery_byte signature.v
    public_key ← eth.sig_to_pub hash (signature.r ++ signature.s ++ v ∷ [])
    ok (eth.pubkey_to_address public_key)

  unfoldable pub recover_signed : SignedAuthorization → Option Signature → Outcome Address
  recover_signed signed none = err signature_required
  recover_signed signed (some signature) =
      recover_signature signed.domain signed.authorization signature

  unfoldable pub recover_authorization_signer : Option SignedAuthorization → Outcome Address
  unfolding recover_signed
  recover_authorization_signer none = err signed_required
  recover_authorization_signer (some signed) = recover_signed signed signed.signature

  -- The comparison of the recovered address with the one that must have signed.
  unfoldable pub compare_signer : Address → Address → Checked
  compare_signer recovered want =
      if not (bytes_eq recovered want) then err (recovers_other recovered want) else ok tt

  -- A nil pointer is refused before it would be read.
  unfoldable pub verify_signed_authorization : Option SignedAuthorization → Checked
  verify_signed_authorization none = recover_authorization_signer none >>= λ _. panic
  verify_signed_authorization (some signed) = do
    recovered ← recover_authorization_signer (some signed)
    want ← signer_address signed.authorization
    compare_signer recovered want
