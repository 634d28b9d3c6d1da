-- ===== src/Commands/Broadcast/Examples.antt =====
-- A payment is broadcast with the sample functions and a node that stops at the chain id.
use eip.Prelude.{◌≡◌, ◌≢◌, refl, true, false, [], ◌∷◌, Bytes, codes, bytes_eq}
use eip.Outcome.{ok, err}
use eip.Types.{SignedAuthorization}
use eip.Ethereum.{PrivateKey}
use eip.Ethereum.Sample.{sample, failed}
use eip.Client.{Node, asks_chain_id}
use eip.Console.{System, KeyOptions}
use eip.Commands.Broadcast.{BroadcastOptions, run_broadcast}
use eip.Commands.Broadcast.Gate.{Cleared, run_broadcast-Cleared}
use eip.Types.{
  normalize_authorization_kind, kind_of, validate_domain, validate_authorization, signer_address,
  not_positive, missing_or_negative, validate_kind, validate_transfer, signer_of, kind_text,
}
use eip.Go.Strings.{to_lower, trim_space, has_prefix, trim_prefix}
use eip.Raw.{
  get, parse_address, parse_string_like, parse_optional_string, parse_big_int, address_of, big_of,
  digits_of, text_of, parse_trimmed, parse_uint64, uint64_of, parse_hash, hash_of, decode_hex,
}
use eip.Go.Json.Quote.{pieces, unquote, read_piece}
use eip.Go.Json.{
  string_step, step, begin_step, after_step, in_string_step, in_number_step, number_step, is_final,
  literal_step, is_complete,
}
use eip.Go.Json.Decode.{
  unmarshal_string, string_of, inside_step, string_read_step, run, unmarshal_object, members_of,
  read_step, key_step, member_step, value_step, first_step, null_step, lookup,
}
use eip.Go.Big.{set_string, scan_digits, scan, digit_value, is_uint64, uint64}
use eip.Go.Hex.{decode_pairs, hex_byte, hex_value, decode_string}
use eip.Message.{
  parse_message_json, root_of, message_of, typed_root, parse_kind, kind_from, parse_domain,
  domain_of, parse_authorization, authorization_of, fields_of, transfer_of, parse_signature,
  signature_of, signature_of_text, signature_of_decoded,
}
use eip.Console.{
  load_private_key, parse_private_key, sources, count_true, read_input_arg, trimmed_input,
  looks_like_inline_data,
}
use eip.Cli.Policy.{validate, resolve_signature_v_for_broadcast}
use eip.Commands.Broadcast.{check_flags, check_verified, read_signed, resolve_v, prepare, has_asked}
use eip.Client.{broadcast_authorization, broadcast_checked, broadcast_signed, submit}
use eip.Calldata.{encode_execute_calldata, encode_kind}
use eip.Signing.{
  verify_signed_authorization, recover_authorization_signer, recover_signed, recover_signature,
  recovery_byte, compare_signer,
}
use eip.Eip712.{typed_data_hash, domain_separator, authorization_struct_hash, type_hash}
use eip.Ethereum.{find_method}
use eip.Ethereum.Sample.{
  sample_hash, sample_public, sample_address, sample_array, sample_unhex, sample_is_address,
  pack_values, pack_value, word, sample_pack, sample_id,
}
use eip.Fixtures.{key, nonce}

-- The reader is a text that is read as a whole; any key text is the key.
abbrev system : System Bytes
system = record {
  is_terminal = λ s. false;
  read_all = λ s. (ok s, []);
  read_terminal = λ s. (ok s, []);
  read_line = λ s. (ok s, []);
  read_file = λ path. err failed;
  decrypt_key = λ file password. err failed;
  hex_to_ecdsa = λ digits. ok key;
  random_bytes = ok nonce;
  now = 1000;
  is_print = λ r. false;
}

abbrev key_options : KeyOptions
key_options = record {
  private_key = [];
  stdin_key = true;
  keystore_path = [];
  password = [];
  stdin_password = false;
}

abbrev node : Node
node = record {
  chain_id = err failed;
  pending_nonce_at = λ a. err failed;
  suggest_gas_price = err failed;
  estimate_gas = λ call. err failed;
  send_transaction = λ tx. err failed;
}

abbrev document : Bytes
document =
    codes
      "{\"domain\":{\"name\":\"USD Coin\",\"version\":\"2\",\"chainId\":1,\"verifyingContract\":\"0x0909090909090909090909090909090909090909\"},\"message\":{\"from\":\"0x0707070707070707070707070707070707070705\",\"to\":\"0x0202020202020202020202020202020202020202\",\"value\":\"1000000\",\"validAfter\":0,\"validBefore\":1740000000,\"nonce\":\"0x0303030303030303030303030303030303030303030303030303030303030303\"},\"signature\":\"0x050000000000000000000000000000000000000000000000000000000000000006000000000000000000000000000000000000000000000000000000000000001b\"}"

abbrev options : BroadcastOptions
options = record {
  rpc = codes "http://localhost:8545";
  message = document;
  key = key_options;
  verify = true;
  signature_v = record { normalize_v = false; keep_v = false; yes_all = false };
}

run_asks :
    run_broadcast system sample (λ rpc. ok node) options (codes "0x01")
    ≡ (err failed, asks_chain_id ∷ [])
unfolding run_broadcast sample bytes_eq normalize_authorization_kind kind_of validate_domain
    validate_authorization signer_address not_positive missing_or_negative validate_kind
    validate_transfer signer_of kind_text to_lower trim_space has_prefix trim_prefix get
    parse_address parse_string_like parse_optional_string parse_big_int address_of big_of digits_of
    text_of parse_trimmed parse_uint64 uint64_of parse_hash hash_of decode_hex pieces unquote
    read_piece string_step step begin_step after_step in_string_step in_number_step number_step
    is_final literal_step is_complete unmarshal_string string_of inside_step string_read_step run
    unmarshal_object members_of read_step key_step member_step value_step first_step null_step
    lookup set_string scan_digits scan digit_value is_uint64 uint64 decode_pairs hex_byte hex_value
    decode_string parse_message_json root_of message_of typed_root parse_kind kind_from parse_domain
    domain_of parse_authorization authorization_of fields_of transfer_of parse_signature
    signature_of signature_of_text signature_of_decoded load_private_key parse_private_key sources
    count_true read_input_arg trimmed_input looks_like_inline_data validate
    resolve_signature_v_for_broadcast check_flags check_verified read_signed resolve_v prepare
    has_asked broadcast_authorization broadcast_checked broadcast_signed submit
    encode_execute_calldata encode_kind verify_signed_authorization recover_authorization_signer
    recover_signed recover_signature recovery_byte compare_signer typed_data_hash domain_separator
    authorization_struct_hash type_hash find_method sample_hash sample_public sample_address
    sample_array sample_unhex sample_is_address pack_values pack_value word sample_pack sample_id
run_asks = refl

asked : (run_broadcast system sample (λ rpc. ok node) options (codes "0x01")).1 ≢ []
asked e = let none_asked : (asks_chain_id ∷ []) ≡ [] = rw run_asks at e in cc

run_broadcast-Cleared_example :
    (resolved : SignedAuthorization) × (k : PrivateKey) × (rest : Bytes) × Cleared system sample
      options
      (codes "0x01")
      resolved
      k
      rest
    × ((n : Node) × (ok node ≡ ok n))
run_broadcast-Cleared_example =
    run_broadcast-Cleared system sample (λ rpc. ok node) options (codes "0x01") asked
