-- ===== src/Message.antt =====
-- internal/eip3009/message.go: a signed authorization is read from JSON. A `json.RawMessage` is a byte
-- text, and the nil one is empty; a map of raw messages is a `Members`. Slices and indices panic
-- where they are out of range.
pub mod Parts
pub mod Total
mod Examples
use eip.Prelude.{
  ℕ, ◌%◌, Bool, ◌||◌, not, List, [], ◌∷◌, Option, none, some, Bytes, codes, ltb, ◌==◌,
  if◌then◌else◌, bytes_eq, length, drop, ℤ,
}
use eip.Outcome.{
  message_empty, domain_missing, message_missing, value_missing, integer_empty, signature_length,
  v_overflows, invalid_address, hash_length, invalid_integer, integer_overflows, Outcome, ok, err,
  ◌>>=◌, ◌>>◌, reject, wrap,
}
use eip.Go.Strings.{trim_space, has_prefix, trim_prefix}
use eip.Go.Big.{to_string, set_string, is_uint64, uint64}
use eip.Go.Hex.{decode_string}
use eip.Go.Json.Decode.{Members, lookup, unmarshal_object, unmarshal_string}
use eip.Types.{
  Address, Hash, zero_address, AuthorizationKind, transfer, cancel, other, Domain, Authorization,
  Signature, SignedAuthorization, normalize_authorization_kind,
}
use eip.Amount.{is_empty, number_or}
use eip.Ethereum.{Ethereum}
use eip.Signing.{byte_at, slice}
use eip.Raw.{
  get, parse_string_like, parse_optional_string, parse_big_int, parse_uint64, decode_hex, first_raw,
  parse_address, parse_hash,
}

-- The loop of `parseKind`.
unfoldable pub kind_from : Members → List Bytes → Outcome AuthorizationKind
kind_from root [] = ok transfer
kind_from root (key ∷ keys) = elim (lookup key root) [
  | none ↦ kind_from root keys
  | some raw ↦ (do text ← parse_string_like raw; normalize_authorization_kind text)
]

unfoldable pub parse_kind : Members → Outcome AuthorizationKind
unfolding kind_from
parse_kind root = kind_from root (codes "authorizationType" ∷ codes "primaryType" ∷ [])

module _ (eth : Ethereum) where
  unfoldable pub domain_of : Members → Outcome Domain
  domain_of members = do
    name ← wrap (codes "parse domain.name") (parse_optional_string (get (codes "name") members))
    version ←
        wrap (codes "parse domain.version") (parse_optional_string (get (codes "version") members))
    chain_id ← wrap (codes "parse domain.chainId") (parse_big_int (get (codes "chainId") members))
    token ←
        wrap (codes "parse domain.verifyingContract")
          (parse_address eth (get (codes "verifyingContract") members))
    ok (record {
      name = name;
      version = version;
      chain_id = some chain_id;
      verifying_contract = token;
    })

  unfoldable pub parse_domain : Bytes → Outcome Domain
  parse_domain raw =
      if is_empty raw
      then err domain_missing
      else (do members ← unmarshal_object raw; domain_of members)

  -- The rest of `parseAuthorization` for a cancellation, and for the other kinds.
  unfoldable pub cancel_of : AuthorizationKind → Hash → Members → Outcome Authorization
  cancel_of kind nonce members = do
    authorizer ←
        wrap (codes "parse message.authorizer")
          (parse_address eth (first_raw members (codes "authorizer" ∷ codes "from" ∷ [])))
    ok (record {
      kind = kind;
      from = zero_address;
      to = zero_address;
      value = none;
      valid_after = 0;
      valid_before = 0;
      nonce = nonce;
      authorizer = authorizer;
    })

  unfoldable pub transfer_of : AuthorizationKind → Hash → Members → Outcome Authorization
  transfer_of kind nonce members = do
    from ← wrap (codes "parse message.from") (parse_address eth (get (codes "from") members))
    to ← wrap (codes "parse message.to") (parse_address eth (get (codes "to") members))
    value ← wrap (codes "parse message.value") (parse_big_int (get (codes "value") members))
    valid_after ←
        wrap (codes "parse message.validAfter") (parse_uint64 (get (codes "validAfter") members))
    valid_before ←
        wrap (codes "parse message.validBefore") (parse_uint64 (get (codes "validBefore") members))
    ok (record {
      kind = kind;
      from = from;
      to = to;
      value = some value;
      valid_after = valid_after;
      valid_before = valid_before;
      nonce = nonce;
      authorizer = zero_address;
    })

  -- `if kind == CancelAuthorization`
  unfoldable pub fields_of : AuthorizationKind → Hash → Members → Outcome Authorization
  unfolding cancel_of transfer_of
  fields_of cancel nonce members = cancel_of cancel nonce members
  fields_of kind nonce members = transfer_of kind nonce members

  unfoldable pub authorization_of : AuthorizationKind → Members → Outcome Authorization
  authorization_of kind members = do
    nonce ← wrap (codes "parse message.nonce") (parse_hash eth (get (codes "nonce") members))
    fields_of kind nonce members

  unfoldable pub parse_authorization : AuthorizationKind → Bytes → Outcome Authorization
  parse_authorization kind raw =
      if is_empty raw
      then err message_missing
      else (do members ← unmarshal_object raw; authorization_of kind members)

  -- The signature in its bytes, in a text of hexadecimal digits, and in an object.
  unfoldable pub signature_of_decoded : Bytes → Outcome (Option Signature)
  signature_of_decoded decoded = do
    reject (not (length decoded == 65)) (signature_length (length decoded))
    v ← byte_at decoded 64
    r ← slice decoded 0 32
    s ← slice decoded 32 64
    ok (some (record { v = v; r = eth.bytes_to_hash r; s = eth.bytes_to_hash s }))

  unfoldable pub signature_of_text : Bytes → Outcome (Option Signature)
  signature_of_text value = do decoded ← decode_hex value; signature_of_decoded decoded

  unfoldable pub signature_of_object : Members → Outcome (Option Signature)
  signature_of_object members = do
    v ← wrap (codes "parse signature.v") (parse_uint64 (get (codes "v") members))
    r ← wrap (codes "parse signature.r") (parse_hash eth (get (codes "r") members))
    s ← wrap (codes "parse signature.s") (parse_hash eth (get (codes "s") members))
    reject (ltb 255 v) (v_overflows v)
    ok (some (record { v = v % 256; r = r; s = s }))

  unfoldable pub signature_of : Bytes → Outcome (Option Signature)
  signature_of raw = do
    first ← byte_at raw 0
    if first == b'"'
        then (do value ← parse_string_like raw; signature_of_text value)
        else (do members ← unmarshal_object raw; signature_of_object members)

  unfoldable pub parse_signature : Bytes → Outcome (Option Signature)
  parse_signature raw =
      if is_empty raw || bytes_eq (trim_space raw) (codes "null") then ok none else signature_of raw

  -- The rest of `ParseMessageJSON`, on the object that holds the fields.
  unfoldable pub message_of : Option Signature → Members → Outcome SignedAuthorization
  message_of signature root = do
    kind ← parse_kind root
    domain ← parse_domain (get (codes "domain") root)
    auth ← parse_authorization kind (get (codes "message") root)
    ok (record { authorization = auth; domain = domain; signature = signature })

  -- `typedData` takes the place of the object that it is in.
  unfoldable pub typed_root : Members → Outcome Members
  typed_root root = elim (lookup (codes "typedData") root) [
    | none ↦ ok root
    | some raw ↦ wrap (codes "parse typedData") (unmarshal_object raw)
  ]

  -- `ParseMessageJSON` behind the first `Unmarshal`.
  unfoldable pub root_of : Members → Outcome SignedAuthorization
  unfolding parse_signature typed_root message_of
  root_of root = do
    signature ← parse_signature (get (codes "signature") root)
    inner ← typed_root root
    message_of signature inner

  unfoldable pub parse_message_json : Bytes → Outcome SignedAuthorization
  parse_message_json input = do
    let text = trim_space input
    reject (is_empty text) message_empty
    root ← unmarshal_object text
    root_of root
