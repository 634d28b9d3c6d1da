-- ===== src/Types.antt =====
-- internal/eip3009/types.go: the data of an authorization and its checks. An `Address` is an array of
-- 20 bytes and a `Hash` one of 32; a `uint64` or `uint8` is a number, with the bound where it matters;
-- a pointer that may be nil is an `Option`. `AuthorizationKind` is a Go string: the three constants
-- are constructors, and `other` holds any other text.
pub mod Checks
use eip.Prelude.{
  ℕ, ◌+◌, ◌%◌, Bool, true, false, ◌||◌, [], ◌∷◌, Option, none, some, Bytes, codes, ◌==◌,
  if◌then◌else◌, bytes_eq, replicate, ℤ, pos, negsuc, is_negative,
}
use eip.Outcome.{
  signature_required, invalid_v, unsupported_kind, from_required, to_required, value_required,
  authorizer_required, name_required, version_required, chain_required, contract_required, Outcome,
  Checked, ok, err, ◌>>=◌, ◌>>◌, reject,
}
use eip.Go.Strings.{trim_space, to_lower}

abbrev pub Address : Type 0
Address = Bytes

abbrev pub Hash : Type 0
Hash = Bytes

-- `common.Address{}` and `common.Hash{}`
abbrev pub zero_address : Address
zero_address = replicate 20 0

abbrev pub zero_hash : Hash
zero_hash = replicate 32 0

pub data AuthorizationKind : Type 0 where
  transfer receive cancel : AuthorizationKind
  other : Bytes → AuthorizationKind

-- `string(kind)`
unfoldable pub kind_text : AuthorizationKind → Bytes
kind_text transfer = codes "transferWithAuthorization"
kind_text receive = codes "receiveWithAuthorization"
kind_text cancel = codes "cancelAuthorization"
kind_text (other text) = text

pub record Domain : Type 0 where
  pub name : Bytes
  pub version : Bytes
  pub chain_id : Option ℤ
  pub verifying_contract : Address

pub record Authorization : Type 0 where
  pub kind : AuthorizationKind
  pub from : Address
  pub to : Address
  pub value : Option ℤ
  pub valid_after : ℕ
  pub valid_before : ℕ
  pub nonce : Hash
  pub authorizer : Address

pub record Signature : Type 0 where
  pub v : ℕ
  pub r : Hash
  pub s : Hash

pub record SignedAuthorization : Type 0 where
  pub authorization : Authorization
  pub domain : Domain
  pub signature : Option Signature

-- `NormalizeSignatureVForSolidity` writes through its pointer: the signature comes back beside the
-- result.
unfoldable pub normalize_signature_v : Option Signature → Option Signature × Outcome Bool
normalize_signature_v none = (none, err signature_required)
normalize_signature_v (some signature) =
    if signature.v == 0 || signature.v == 1
    then (some (record signature { v = (signature.v + 27) % 256 }), ok true)
    else if signature.v == 27 || signature.v == 28
    then (some signature, ok false)
    else (some signature, err (invalid_v signature.v))

-- The cases of `NormalizeAuthorizationKind` on the text in lower case.
unfoldable pub kind_of : Bytes → Bytes → Outcome AuthorizationKind
kind_of lower value =
    if bytes_eq lower []
      || bytes_eq lower (codes "transfer")
      || bytes_eq lower (codes "transferwithauthorization")
      || bytes_eq lower (codes "transfer_with_authorization")
    then ok transfer
    else if bytes_eq lower (codes "receive")
        || bytes_eq lower (codes "receivewithauthorization")
        || bytes_eq lower (codes "receive_with_authorization")
    then ok receive
    else if bytes_eq lower (codes "cancel")
        || bytes_eq lower (codes "cancelauthorization")
        || bytes_eq lower (codes "cancel_authorization")
    then ok cancel
    else err (unsupported_kind value)

unfoldable pub normalize_authorization_kind : Bytes → Outcome AuthorizationKind
normalize_authorization_kind value = kind_of (to_lower (trim_space value)) value

unfoldable pub primary_type : AuthorizationKind → Outcome Bytes
primary_type transfer = ok (codes "TransferWithAuthorization")
primary_type receive = ok (codes "ReceiveWithAuthorization")
primary_type cancel = ok (codes "CancelAuthorization")
primary_type (other text) = err (unsupported_kind text)

unfoldable pub signer_of : AuthorizationKind → Authorization → Outcome Address
signer_of transfer a = if bytes_eq a.from zero_address then err from_required else ok a.from
signer_of receive a = if bytes_eq a.from zero_address then err from_required else ok a.from
signer_of cancel a =
    if bytes_eq a.authorizer zero_address then err authorizer_required else ok a.authorizer
signer_of (other text) a = err (unsupported_kind text)

unfoldable pub signer_address : Authorization → Outcome Address
unfolding signer_of
signer_address a = signer_of a.kind a

-- `domain.ChainID == nil || domain.ChainID.Sign() <= 0`
unfoldable pub not_positive : Option ℤ → Bool
not_positive none = true
not_positive (some (pos n)) = n == 0
not_positive (some (negsuc n)) = true

-- `auth.Value == nil || auth.Value.Sign() < 0`
unfoldable pub missing_or_negative : Option ℤ → Bool
missing_or_negative none = true
missing_or_negative (some x) = is_negative x

unfoldable pub validate_domain : Domain → Checked
unfolding not_positive
validate_domain domain = do
  reject (bytes_eq domain.name []) name_required
  reject (bytes_eq domain.version []) version_required
  reject (not_positive domain.chain_id) chain_required
  reject (bytes_eq domain.verifying_contract zero_address) contract_required
  ok tt

-- The checks of a transfer or a receive.
unfoldable pub validate_transfer : Authorization → Checked
unfolding missing_or_negative
validate_transfer auth = do
  reject (bytes_eq auth.from zero_address) from_required
  reject (bytes_eq auth.to zero_address) to_required
  reject (missing_or_negative auth.value) value_required
  ok tt

unfoldable pub validate_kind : AuthorizationKind → Authorization → Checked
unfolding validate_transfer
validate_kind transfer auth = validate_transfer auth
validate_kind receive auth = validate_transfer auth
validate_kind cancel auth = do
  reject (bytes_eq auth.authorizer zero_address) authorizer_required
  ok tt
validate_kind (other text) auth = err (unsupported_kind text)

unfoldable pub validate_authorization : Authorization → Checked
unfolding validate_kind
validate_authorization auth = validate_kind auth.kind auth
