-- ===== src/Support.antt =====
-- The calls of a token's views in internal/eip3009/client.go: `CheckEIP3009Support` and the token
-- metadata. A `ContractCaller` is the function of its one method. In a `FeatureCheck`, the value and
-- the error are what their texts print; a field that is left out is `none`.
pub mod Views
pub mod Check
pub mod Metadata
mod Examples
use eip.Prelude.{
  ℕ, ◌&&◌, Bool, true, false, not, List, [], ◌∷◌, Option, none, some, Bytes, codes, ◌==◌, length,
  if◌then◌else◌, bytes_eq,
}
use eip.Outcome.{
  Error, empty_return, wants_hash, decoded_as_other, Outcome, Checked, ok, err, panic, ◌>>=◌, ◌>>◌,
  reject,
}
use eip.Types.{Address, Hash, zero_address, zero_hash}
use eip.Eip712.{transfer_type, receive_type, cancel_type}
use eip.Ethereum.{
  CallMsg, Abi, AbiValue, address_value, hash_value, bool_value, uint8_value, string_value,
  Ethereum,
}
use eip.Abi.{eip3009_abi, erc20_metadata_abi}
use eip.Calldata.{bytes32_to_hash}

abbrev pub ContractCaller : Type 0
ContractCaller = CallMsg → Outcome Bytes

pub record FeatureCheck : Type 0 where
  pub passes : Bool
  pub value : Option Hash
  pub error : Option Error

pub record SupportReport : Type 0 where
  pub token : Address
  pub supported : Bool
  pub authorization_state : FeatureCheck
  pub transfer_type_hash : FeatureCheck
  pub receive_type_hash : FeatureCheck
  pub cancel_authorization : FeatureCheck
  pub cancel_authorization_notes : Bytes

-- `values[0]`
unfoldable pub first_value : List AbiValue → Outcome AbiValue
first_value [] = panic
first_value (v ∷ vs) = ok v

-- The check of the first value, where an error of the call is a failed check.
unfoldable pub check_first :
    Outcome (List AbiValue) → (AbiValue → FeatureCheck) → Outcome FeatureCheck
check_first (ok values) test = first_value values >>= λ v. ok (test v)
check_first (err e) test = ok (record { passes = false; value = none; error = some e })
check_first panic test = panic

unfoldable pub check_bool : AbiValue → FeatureCheck
check_bool (bool_value b) = record { passes = true; value = none; error = none }
check_bool _ = record { passes = false; value = none; error = some (decoded_as_other []) }

unfoldable pub as_decimals : AbiValue → Outcome ℕ
as_decimals (uint8_value n) = ok n
as_decimals _ = err (decoded_as_other (codes "decimals"))

unfoldable pub as_string : Bytes → AbiValue → Outcome Bytes
as_string method (string_value s) = ok s
as_string method _ = err (decoded_as_other method)

-- The report that the four checks make.
abbrev pub report_of :
    Address → FeatureCheck → FeatureCheck → FeatureCheck → FeatureCheck → SupportReport
report_of token state transfer_hash receive_hash cancel_hash = record {
  token = token;
  supported = state.passes && transfer_hash.passes && receive_hash.passes;
  authorization_state = state;
  transfer_type_hash = transfer_hash;
  receive_type_hash = receive_hash;
  cancel_authorization = cancel_hash;
  cancel_authorization_notes =
      if not cancel_hash.passes
      then codes "cancelAuthorization support is needed for emergency nonce cancellation"
      else [];
}

unfoldable pub compare_hash : Ethereum → Hash → AbiValue → FeatureCheck
compare_hash eth want v =
    let got = bytes32_to_hash eth v in
    if not (bytes_eq got want)
    then record { passes = false; value = some got; error = some (wants_hash want) }
    else record { passes = true; value = some got; error = none }

module _ (eth : Ethereum) (caller : ContractCaller) where
  unfoldable pub call_view : Abi → Address → Bytes → List AbiValue → Outcome (List AbiValue)
  call_view abi token method args = do
    input ← eth.pack abi method args
    out ← caller (record { from = zero_address; to = token; input = input })
    reject (length out == 0) empty_return
    eth.unpack_result abi method out

  unfoldable pub check_authorization_state : Address → Outcome FeatureCheck
  check_authorization_state token =
      check_first
        (call_view eip3009_abi token (codes "authorizationState")
          (address_value zero_address ∷ hash_value zero_hash ∷ []))
        check_bool

  unfoldable pub check_type_hash : Address → Bytes → Hash → Outcome FeatureCheck
  check_type_hash token method want =
      check_first (call_view eip3009_abi token method []) (compare_hash eth want)

  unfoldable pub check_eip3009_support : Address → Outcome SupportReport
  check_eip3009_support token = do
    state ← check_authorization_state token
    transfer_hash ←
        check_type_hash token (codes "TRANSFER_WITH_AUTHORIZATION_TYPEHASH")
          (eth.keccak256 transfer_type)
    receive_hash ←
        check_type_hash token (codes "RECEIVE_WITH_AUTHORIZATION_TYPEHASH")
          (eth.keccak256 receive_type)
    cancel_hash ←
        check_type_hash token (codes "CANCEL_AUTHORIZATION_TYPEHASH") (eth.keccak256 cancel_type)
    ok (report_of token state transfer_hash receive_hash cancel_hash)

  unfoldable pub token_decimals : Address → Outcome ℕ
  token_decimals token = do
    values ← call_view erc20_metadata_abi token (codes "decimals") []
    v ← first_value values
    as_decimals v

  unfoldable pub token_string : Address → Bytes → Outcome Bytes
  token_string token method = do
    values ← call_view erc20_metadata_abi token method []
    v ← first_value values
    as_string method v

  unfoldable pub token_symbol : Address → Outcome Bytes
  token_symbol token = token_string token (codes "symbol")

  unfoldable pub token_name : Address → Outcome Bytes
  token_name token = token_string token (codes "name")

  unfoldable pub token_version : Address → Outcome Bytes
  token_version token = token_string token (codes "version")
