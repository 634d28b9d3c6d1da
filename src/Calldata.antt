-- ===== src/Calldata.antt =====
-- internal/eip3009/calldata.go: the calldata of the three calls that execute an authorization. A type
-- assertion `x.(T)` panics on another type; `value, ok := x.(T)` does not.
pub mod RoundTrip
pub mod Values
pub mod Canonical
mod Examples
use eip.Prelude.{
  ℕ, ◌+◌, ◌-◌, ◌<◌, Bool, true, false, List, [], ◌∷◌, Option, none, some, Bytes, codes, ltb,
  if◌then◌else◌, bytes_eq, length, take, drop, ℤ, pos,
}
use eip.Outcome.{
  signature_required, unsupported_kind, short_calldata, wrong_inputs, decoded_as_other,
  overflows_uint64, unsupported_method, Outcome, ok, err, panic, ◌>>=◌, ◌>>◌, reject, wrap,
}
use eip.Go.Big.{is_uint64, uint64}
use eip.Types.{
  Address, Hash, zero_address, zero_hash, AuthorizationKind, transfer, receive, cancel, other,
  kind_text, Domain, Authorization, Signature, SignedAuthorization,
}
use eip.Ethereum.{
  Ethereum, AbiValue, address_value, big_value, hash_value, array_value, uint8_value, Method,
}
use eip.Abi.{eip3009_abi}
use eip.Eip712.{big}

-- `AuthorizationKind(name)`
unfoldable pub kind_named : Bytes → AuthorizationKind
kind_named name =
    if bytes_eq name (codes "transferWithAuthorization")
    then transfer
    else if bytes_eq name (codes "receiveWithAuthorization")
    then receive
    else if bytes_eq name (codes "cancelAuthorization")
    then cancel
    else other name

-- `Domain{}`
abbrev pub zero_domain : Domain
zero_domain = record { name = []; version = []; chain_id = none; verifying_contract = zero_address }

-- The arguments that `EncodeExecuteCalldata` hands to `Pack`.
abbrev pub call_values : AuthorizationKind → Authorization → Signature → List AbiValue
call_values cancel a sig =
    address_value a.authorizer
    ∷ hash_value a.nonce
    ∷ uint8_value sig.v
    ∷ hash_value sig.r
    ∷ hash_value sig.s
    ∷ []
call_values _ a sig =
    address_value a.from
    ∷ address_value a.to
    ∷ big_value a.value
    ∷ big_value (big a.valid_after)
    ∷ big_value (big a.valid_before)
    ∷ hash_value a.nonce
    ∷ uint8_value sig.v
    ∷ hash_value sig.r
    ∷ hash_value sig.s
    ∷ []

-- x.(common.Address), x.(uint8)
unfoldable pub as_address : AbiValue → Outcome Address
as_address (address_value a) = ok a
as_address _ = panic

unfoldable pub as_uint8 : AbiValue → Outcome ℕ
as_uint8 (uint8_value n) = ok n
as_uint8 _ = panic

-- value, ok := x.(*big.Int)
unfoldable pub as_big : AbiValue → Outcome (Option ℤ)
as_big (big_value x) = ok x
as_big _ = err (decoded_as_other (codes "value"))

-- A nil pointer has no number to test.
unfoldable pub fit_uint64 : Option ℤ → Outcome ℕ
fit_uint64 none = panic
fit_uint64 (some x) = if is_uint64 x then ok (uint64 x) else err overflows_uint64

unfoldable pub big_to_uint64 : AbiValue → Outcome ℕ
big_to_uint64 (big_value x) = fit_uint64 x
big_to_uint64 _ = err (decoded_as_other [])

module _ (eth : Ethereum) where
  unfoldable pub bytes32_to_hash : AbiValue → Hash
  bytes32_to_hash (hash_value h) = h
  bytes32_to_hash (array_value b) = eth.bytes_to_hash b
  bytes32_to_hash _ = zero_hash

  unfoldable pub encode_kind : AuthorizationKind → Authorization → Option Signature → Outcome Bytes
  encode_kind k a none = err signature_required
  encode_kind (other text) a (some sig) = err (unsupported_kind text)
  encode_kind k a (some sig) = eth.pack eip3009_abi (kind_text k) (call_values k a sig)

  unfoldable pub encode_execute_calldata : SignedAuthorization → Outcome Bytes
  encode_execute_calldata signed =
      encode_kind signed.authorization.kind signed.authorization signed.signature

  unfoldable pub decode_transfer : AuthorizationKind → List AbiValue → Outcome SignedAuthorization
  decode_transfer k
        (from_value ∷ to_value ∷ amount ∷ after ∷ before ∷ nonce ∷ v_value ∷ r_value ∷ s_value
          ∷ []) =
      do
        value ← as_big amount
        valid_after ← wrap (codes "validAfter") (big_to_uint64 after)
        valid_before ← wrap (codes "validBefore") (big_to_uint64 before)
        from ← as_address from_value
        to ← as_address to_value
        v ← as_uint8 v_value
        ok (record {
          authorization = record {
            kind = k;
            from = from;
            to = to;
            value = value;
            valid_after = valid_after;
            valid_before = valid_before;
            nonce = bytes32_to_hash nonce;
            authorizer = zero_address;
          };
          domain = zero_domain;
          signature =
              some (record { v = v; r = bytes32_to_hash r_value; s = bytes32_to_hash s_value });
        })
  decode_transfer k values = err (wrong_inputs (kind_text k) (length values))

  unfoldable pub decode_cancel : List AbiValue → Outcome SignedAuthorization
  decode_cancel (authorizer_value ∷ nonce ∷ v_value ∷ r_value ∷ s_value ∷ []) = do
    authorizer ← as_address authorizer_value
    v ← as_uint8 v_value
    ok (record {
      authorization = record {
        kind = cancel;
        from = zero_address;
        to = zero_address;
        value = none;
        valid_after = 0;
        valid_before = 0;
        nonce = bytes32_to_hash nonce;
        authorizer = authorizer;
      };
      domain = zero_domain;
      signature = some (record { v = v; r = bytes32_to_hash r_value; s = bytes32_to_hash s_value });
    })
  decode_cancel values = err (wrong_inputs (codes "cancelAuthorization") (length values))

  -- The switch on `method.Name`.
  unfoldable pub decode_method : AuthorizationKind → List AbiValue → Outcome SignedAuthorization
  decode_method transfer values = decode_transfer transfer values
  decode_method receive values = decode_transfer receive values
  decode_method cancel values = decode_cancel values
  decode_method (other name) values = err (unsupported_method name)

  unfoldable pub decode_execute_calldata : Bytes → Outcome SignedAuthorization
  decode_execute_calldata data_bytes = do
    reject (ltb (length data_bytes) 4) short_calldata
    method ← eth.method_by_id eip3009_abi (take 4 data_bytes)
    values ← eth.unpack method.inputs (drop 4 data_bytes)
    decode_method (kind_named method.name) values
