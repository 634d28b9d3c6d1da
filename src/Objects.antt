-- ===== src/Objects.antt =====
-- internal/eip3009/json.go: the JSON objects that are printed for an authorization. A `map[string]any`
-- is a `Fields`, in the order in which its keys were written; the encoder sorts them.
pub mod DomainPart
pub mod MessagePart
pub mod SignaturePart
pub mod TypedData
pub mod SignedFields
pub mod RoundTrip
pub mod Verdict
mod Examples
use eip.Prelude.{
  ℕ, Bool, ◌∷◌, ◌++◌, Option, none, some, Bytes, codes, if◌then◌else◌, not, ◌||◌, bytes_eq, ℤ,
}
use eip.Outcome.{Outcome, ok, panic, ◌>>=◌}
use eip.Go.Big.{digits, to_string}
use eip.Go.Hex.{encode_to_string}
use eip.Go.Json.Encode.{Json, text, number, truth, array, object, nil, item, Fields, end, field}
use eip.Types.{
  AuthorizationKind, receive, cancel, kind_text, Domain, Authorization, Signature,
  SignedAuthorization, primary_type,
}
use eip.Amount.{is_empty, format_token_value}
use eip.Ethereum.{Ethereum}
use eip.Signing.{signature_bytes}

-- `fields[key] = value`: a key that is there keeps its place.
unfoldable pub put : Bytes → Json → Fields → Fields
put key value end = field key value end
put key value (field k v fields) =
    let rest = put key value fields in
    if bytes_eq k key then field key value fields else field k v rest

-- `fields[key]`
unfoldable pub member : Bytes → Fields → Option Json
member key end = none
member key (field k v fields) =
    let rest = member key fields in if bytes_eq k key then some v else rest

-- The name and the type of one field.
abbrev pub typed_field : Bytes → Bytes → Json
typed_field name type_name =
    object (field (codes "name") (text name) (field (codes "type") (text type_name) end))

unfoldable pub transfer_fields : Json
transfer_fields = array (
    item (typed_field (codes "from") (codes "address")) (
      item (typed_field (codes "to") (codes "address")) (
        item (typed_field (codes "value") (codes "uint256")) (
          item (typed_field (codes "validAfter") (codes "uint256")) (
            item (typed_field (codes "validBefore") (codes "uint256"))
              (item (typed_field (codes "nonce") (codes "bytes32")) nil))))))

-- The fields of a cancellation, and the case of a kind.
abbrev pub cancel_fields : Json
cancel_fields = array (
    item (typed_field (codes "authorizer") (codes "address"))
      (item (typed_field (codes "nonce") (codes "bytes32")) nil))

abbrev pub domain_fields : Json
domain_fields = array (
    item (typed_field (codes "name") (codes "string")) (
      item (typed_field (codes "version") (codes "string")) (
        item (typed_field (codes "chainId") (codes "uint256"))
          (item (typed_field (codes "verifyingContract") (codes "address")) nil))))

unfoldable pub message_types : AuthorizationKind → Fields
unfolding transfer_fields
message_types cancel = field (codes "CancelAuthorization") cancel_fields end
message_types receive = field (codes "ReceiveWithAuthorization") transfer_fields end
message_types _ = field (codes "TransferWithAuthorization") transfer_fields end

unfoldable pub typed_data_types : AuthorizationKind → Json
unfolding message_types
typed_data_types kind = object (field (codes "EIP712Domain") domain_fields (message_types kind))

-- A `*big.Int` that may be nil, as a text.
abbrev pub integer_text : Option ℤ → Bytes
integer_text none = codes "0"
integer_text (some x) = to_string x

module _ (eth : Ethereum) where
  unfoldable pub domain_object : Domain → Json
  domain_object domain = object (
      field (codes "name") (text domain.name) (
        field (codes "version") (text domain.version) (
          field (codes "chainId") (text (integer_text domain.chain_id)) (
            field (codes "verifyingContract") (text (eth.address_hex domain.verifying_contract))
              end))))

  -- The two objects of `messageObject`.
  unfoldable pub cancel_message : Authorization → Fields
  cancel_message auth =
      field (codes "authorizer") (text (eth.address_hex auth.authorizer))
        (field (codes "nonce") (text (eth.hash_hex auth.nonce)) end)

  unfoldable pub transfer_message : Authorization → Fields
  transfer_message auth = field (codes "from") (text (eth.address_hex auth.from)) (
      field (codes "to") (text (eth.address_hex auth.to)) (
        field (codes "value") (text (integer_text auth.value)) (
          field (codes "validAfter") (text (digits auth.valid_after)) (
            field (codes "validBefore") (text (digits auth.valid_before))
              (field (codes "nonce") (text (eth.hash_hex auth.nonce)) end)))))

  unfoldable pub message_fields : AuthorizationKind → Authorization → Fields
  unfolding cancel_message transfer_message
  message_fields cancel auth = cancel_message auth
  message_fields _ auth = transfer_message auth

  unfoldable pub message_object : Authorization → Json
  unfolding message_fields
  message_object auth = object (message_fields auth.kind auth)

  unfoldable pub signature_object : Signature → Json
  signature_object sig = object (
      field (codes "v") (number sig.v) (
        field (codes "r") (text (eth.hash_hex sig.r)) (
          field (codes "s") (text (eth.hash_hex sig.s)) (
            field (codes "signature") (text (codes "0x" ++ encode_to_string (signature_bytes sig)))
              end))))

  unfoldable pub typed_data_object : SignedAuthorization → Outcome Fields
  typed_data_object signed = do
    primary ← primary_type signed.authorization.kind
    ok (
        field (codes "types") (typed_data_types signed.authorization.kind) (
          field (codes "primaryType") (text primary) (
            field (codes "domain") (domain_object signed.domain)
              (field (codes "message") (message_object signed.authorization) end))))

  abbrev pub with_signature : Option Signature → Fields → Fields
  with_signature none out = out
  with_signature (some sig) out = put (codes "signature") (signature_object sig) out

  abbrev pub with_validity : Option Bool → Fields → Fields
  with_validity none out = out
  with_validity (some valid) out = put (codes "signatureValid") (truth valid) out

  unfoldable pub signed_authorization_object : SignedAuthorization → Option Bool → Outcome Fields
  unfolding typed_data_object
  signed_authorization_object signed signature_valid = do
    typed_data ← typed_data_object signed
    let out = field (codes "authorizationType") (text (kind_text signed.authorization.kind)) (
        field (codes "domain") (domain_object signed.domain) (
          field (codes "message") (message_object signed.authorization)
            (field (codes "typedData") (object typed_data) end)))
    ok (with_validity signature_valid (with_signature signed.signature out))

-- `out["message"].(map[string]any)`; where that fails the map is nil, and a write to it panics.
abbrev pub fields_in : Option Json → Outcome Fields
fields_in (some (object fields)) = ok fields
fields_in _ = panic

-- The human amount in a message, with the decimals and the symbol of the token where they are known.
unfoldable pub with_amount : ℤ → Option ℕ → Bytes → Fields → Outcome Fields
with_amount value none symbol msg = ok msg
with_amount value (some decimals) symbol msg = do
  formatted ← format_token_value (some value) decimals
  let shown = put (codes "valueFormatted") (text formatted) msg
  ok (
      if not (is_empty symbol)
      then put (codes "amount") (text (formatted ++ b' ' ∷ symbol)) shown
      else shown)

-- The message in `out` is changed in place.
unfoldable pub with_value : Option ℤ → Option ℕ → Bytes → Fields → Outcome Fields
unfolding with_amount
with_value none decimals symbol out = ok out
with_value (some value) decimals symbol out = do
  msg ← fields_in (member (codes "message") out)
  shown ← with_amount value decimals symbol (put (codes "valueRaw") (text (to_string value)) msg)
  ok (put (codes "message") (object shown) out)

abbrev pub with_decimals : Option ℕ → Fields → Fields
with_decimals none meta = meta
with_decimals (some decimals) meta = put (codes "decimals") (number decimals) meta

abbrev pub with_symbol : Bytes → Fields → Fields
with_symbol symbol meta =
    if not (is_empty symbol) then put (codes "symbol") (text symbol) meta else meta

abbrev pub is_known : Option ℕ → Bool
is_known none = Bool.false
is_known (some n) = Bool.true

unfoldable pub with_metadata : Option ℕ → Bytes → Fields → Fields
with_metadata decimals symbol out =
    if is_known decimals || not (is_empty symbol)
    then put (codes "tokenMetadata") (object (with_symbol symbol (with_decimals decimals end))) out
    else out

module _ (eth : Ethereum) where
  unfoldable pub extraction_object :
      SignedAuthorization → Option ℕ → Bytes → Option Bool → Outcome Fields
  unfolding with_value
  extraction_object signed decimals symbol signature_valid = do
    out ← signed_authorization_object eth signed signature_valid
    shown ← with_value signed.authorization.value decimals symbol out
    ok (with_metadata decimals symbol shown)
