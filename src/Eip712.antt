-- ===== src/Eip712.antt =====
-- internal/eip3009/eip712.go: the hash that is signed. go-ethereum is the parameter `eth`.
pub mod Fields
pub mod Separator
pub mod Struct
pub mod Binding
mod Examples
use eip.Prelude.{ℕ, [], ◌∷◌, ◌++◌, List, Option, some, Bytes, codes, ℤ, pos}
use eip.Outcome.{unsupported_kind, Outcome, ok, err, ◌>>=◌, ◌>>◌}
use eip.Types.{
  Hash, AuthorizationKind, transfer, receive, cancel, other, Domain, Authorization, validate_domain,
  validate_authorization,
}
use eip.Ethereum.{
  Ethereum, AbiType, address, uint256, bytes32, AbiValue, address_value, big_value, hash_value,
}

abbrev pub domain_type : Bytes
domain_type =
    codes "EIP712Domain(string name,string version,uint256 chainId,address verifyingContract)"

abbrev pub transfer_type : Bytes
transfer_type =
    codes
      "TransferWithAuthorization(address from,address to,uint256 value,uint256 validAfter,uint256 validBefore,bytes32 nonce)"

abbrev pub receive_type : Bytes
receive_type =
    codes
      "ReceiveWithAuthorization(address from,address to,uint256 value,uint256 validAfter,uint256 validBefore,bytes32 nonce)"

abbrev pub cancel_type : Bytes
cancel_type = codes "CancelAuthorization(address authorizer,bytes32 nonce)"

-- new(big.Int).SetUint64(n)
abbrev pub big : ℕ → Option ℤ
big n = some (pos n)

abbrev pub domain_arguments : List AbiType
domain_arguments = bytes32 ∷ bytes32 ∷ bytes32 ∷ uint256 ∷ address ∷ []

-- The arguments of the two calls of `args.Pack`.
abbrev pub struct_arguments : AuthorizationKind → List AbiType
struct_arguments cancel = bytes32 ∷ address ∷ bytes32 ∷ []
struct_arguments _ = bytes32 ∷ address ∷ address ∷ uint256 ∷ uint256 ∷ uint256 ∷ bytes32 ∷ []

abbrev pub struct_values : AuthorizationKind → Hash → Authorization → List AbiValue
struct_values cancel hash auth =
    hash_value hash ∷ address_value auth.authorizer ∷ hash_value auth.nonce ∷ []
struct_values _ hash auth =
    hash_value hash
    ∷ address_value auth.from
    ∷ address_value auth.to
    ∷ big_value auth.value
    ∷ big_value (big auth.valid_after)
    ∷ big_value (big auth.valid_before)
    ∷ hash_value auth.nonce
    ∷ []

module _ (eth : Ethereum) where
  unfoldable pub type_hash : AuthorizationKind → Outcome Hash
  type_hash transfer = ok (eth.keccak256 transfer_type)
  type_hash receive = ok (eth.keccak256 receive_type)
  type_hash cancel = ok (eth.keccak256 cancel_type)
  type_hash (other text) = err (unsupported_kind text)

  abbrev pub domain_values : Domain → List AbiValue
  domain_values domain =
      hash_value (eth.keccak256 domain_type)
      ∷ hash_value (eth.keccak256 domain.name)
      ∷ hash_value (eth.keccak256 domain.version)
      ∷ big_value domain.chain_id
      ∷ address_value domain.verifying_contract
      ∷ []

  unfoldable pub domain_separator : Domain → Outcome Hash
  domain_separator domain = do
    validate_domain domain
    packed ← eth.pack_arguments domain_arguments (domain_values domain)
    ok (eth.keccak256 packed)

  unfoldable pub authorization_struct_hash : Authorization → Outcome Hash
  authorization_struct_hash auth = do
    validate_authorization auth
    hash ← type_hash auth.kind
    packed ← eth.pack_arguments (struct_arguments auth.kind) (struct_values auth.kind hash auth)
    ok (eth.keccak256 packed)

  unfoldable pub typed_data_hash : Domain → Authorization → Outcome Hash
  typed_data_hash domain auth = do
    separator ← domain_separator domain
    struct_hash ← authorization_struct_hash auth
    ok (eth.keccak256 (0x19 ∷ 0x01 ∷ (separator ++ struct_hash)))
