-- ===== src/Commands/Examples.antt =====
-- The payment of the examples is signed and cancelled from flags, with the sample functions.
use eip.Prelude.{◌≡◌, refl, true, false, Option, none, some, [], Bytes, codes, negsuc, bytes_eq}
use eip.Outcome.{ok, err}
use eip.Types.{SignedAuthorization, cancel, zero_address}
use eip.Ethereum.Sample.{sample, failed}
use eip.Ethereum.SampleLaws.{sample_laws}
use eip.Support.{ContractCaller}
use eip.Console.{System, KeyOptions}
use eip.Commands.Dispatch.{Command, dispatch}
use eip.Commands.Dispatch.ExitCodes.{Codes, dispatch_iff}
use eip.Outcome.{Checked}
use eip.Prelude.{List, ◌∷◌}
use eip.Commands.Sign.{SignOptions, build_signed_authorization}
use eip.Commands.Sign.Verified.{Built, build_signed-SignedBy}
use eip.Commands.Cancel.{
  cancel_with, cancel_domain, cancel_nonce, cancel_authorizer, cancellation_of, flag_contract,
  flag_chain, node_chain, CancelOptions, cancel_source, build_cancel_authorization,
}
use eip.Commands.Cancel.Verified.{CancelledBy, build_cancel-CancelledBy}
use eip.Types.{
  normalize_authorization_kind, kind_of, validate_domain, validate_authorization, signer_address,
  not_positive, missing_or_negative, validate_kind, validate_transfer, signer_of,
}
use eip.Go.Strings.{to_lower, trim_space, has_prefix, trim_prefix}
use eip.Values.{parse_address_value, parse_hash_value, parse_big_int_value, must_raw_string}
use eip.Raw.{
  parse_hash, hash_of, decode_hex, parse_address, parse_string_like, parse_big_int, address_of,
  big_of, digits_of, text_of, parse_trimmed,
}
use eip.Go.Strconv.{go_quote, go_quote_body, go_quote_piece, go_quote_byte}
use eip.Go.Json.Quote.{pieces, unquote, read_piece}
use eip.Go.Json.{string_step}
use eip.Go.Json.Decode.{unmarshal_string, string_of, inside_step, string_read_step, run}
use eip.Amount.{parse_token_value, choose_value, raw_value}
use eip.Go.Big.{set_string, scan_digits, scan, digit_value}
use eip.Go.Hex.{decode_string, decode_pairs, hex_byte, hex_value}
use eip.Cli.Validity.{resolve_valid_before}
use eip.Console.{load_private_key, parse_private_key, random_nonce, sources, count_true}
use eip.Commands.Sign.{
  sender, check_signed, finish_signed, with_terms, sign_terms, match_key, parse_from,
  authorization_for, resolve_nonce, decimals_of, domain_from_args,
}
use eip.Signing.{
  sign_authorization, split_signature, verify_signed_authorization, recover_authorization_signer,
  recover_signed, recover_signature, recovery_byte, compare_signer,
}
use eip.Eip712.{typed_data_hash, domain_separator, authorization_struct_hash, type_hash}
use eip.Ethereum.Sample.{
  sample_hash, sample_sign, sample_public, sample_address, sample_array, sample_unhex,
  sample_is_address, pack_values, pack_value, word,
}
use eip.Fixtures.{key, key_address, nonce, usd_domain, signed_payment}

-- The reader is a text that is read as a whole; any key text is the key.
abbrev system : System Bytes
system = record {
  is_terminal = λ s. false;
  read_all = λ s. (ok s, []);
  read_terminal = λ s. (ok s, []);
  read_line = λ s. (ok s, []);
  read_file = λ path. err failed;
  decrypt_key = λ file password. err failed;
  hex_to_ecdsa = λ digits. ok key;
  random_bytes = ok nonce;
  now = 1000;
  is_print = λ r. false;
}

abbrev key_options : KeyOptions
key_options = record {
  private_key = [];
  stdin_key = true;
  keystore_path = [];
  password = [];
  stdin_password = false;
}

abbrev options : SignOptions
options = record {
  token = codes "0x0909090909090909090909090909090909090909";
  name = codes "USD Coin";
  version = codes "2";
  chain_id = codes "1";
  from = [];
  to = codes "0x0202020202020202020202020202020202020202";
  value = codes "1000000";
  amount = [];
  decimals = negsuc 0;
  valid_after = 0;
  valid_before = 1740000000;
  ttl = 0;
  nonce = codes "Random";
  key = key_options;
  dry_run = false;
  verify = true;
  kind = codes "transfer";
}

run_sign :
    build_signed_authorization system sample options (codes "0x01\n")
    ≡ (ok (signed_payment, some true), [])
unfolding build_signed_authorization bytes_eq sample normalize_authorization_kind kind_of
    validate_domain validate_authorization signer_address not_positive missing_or_negative
    validate_kind validate_transfer signer_of to_lower trim_space has_prefix trim_prefix
    parse_address_value parse_hash_value parse_big_int_value must_raw_string parse_address
    parse_string_like parse_big_int address_of big_of digits_of text_of parse_trimmed go_quote
    go_quote_body go_quote_piece go_quote_byte pieces unquote read_piece string_step
    unmarshal_string string_of inside_step string_read_step run parse_token_value choose_value
    raw_value set_string scan_digits scan digit_value decode_pairs hex_byte hex_value
    resolve_valid_before load_private_key parse_private_key random_nonce sources count_true sender
    check_signed finish_signed with_terms sign_terms match_key parse_from authorization_for
    resolve_nonce decimals_of domain_from_args sign_authorization split_signature
    verify_signed_authorization recover_authorization_signer recover_signed recover_signature
    recovery_byte compare_signer typed_data_hash domain_separator authorization_struct_hash
    type_hash sample_hash sample_sign sample_public sample_address sample_array sample_unhex
    sample_is_address pack_values pack_value word
run_sign = refl

build_signed-SignedBy_example :
    Built system sample sample_laws options (codes "0x01\n") [] signed_payment (some true)
build_signed-SignedBy_example =
    build_signed-SignedBy system sample sample_laws options (codes "0x01\n") [] signed_payment
      (some true) run_sign

abbrev cancel_options : CancelOptions
cancel_options = record {
  message = [];
  token = codes "0x0909090909090909090909090909090909090909";
  name = codes "USD Coin";
  version = codes "2";
  chain_id = codes "1";
  authorizer = [];
  nonce = codes "0x0303030303030303030303030303030303030303030303030303030303030303";
  key = key_options;
}

abbrev cancelled : SignedAuthorization
cancelled = record {
  authorization = record {
    kind = cancel;
    from = zero_address;
    to = zero_address;
    value = none;
    valid_after = 0;
    valid_before = 0;
    nonce = nonce;
    authorizer = key_address;
  };
  domain = usd_domain;
  signature = signed_payment.signature;
}

-- A node that refuses every call.
abbrev no_node : ContractCaller
no_node call = err failed

run_cancel :
    build_cancel_authorization system sample no_node (err failed) cancel_options (codes "0x01\n")
    ≡ (ok (cancelled, key), [])
unfolding parse_hash hash_of decode_hex decode_string build_cancel_authorization cancel_with
    cancel_source cancel_domain cancel_nonce cancel_authorizer cancellation_of flag_contract
    flag_chain node_chain bytes_eq sample validate_domain validate_authorization signer_address
    not_positive missing_or_negative validate_kind validate_transfer signer_of to_lower trim_space
    has_prefix trim_prefix parse_address_value parse_hash_value parse_big_int_value must_raw_string
    parse_address parse_string_like parse_big_int address_of big_of digits_of text_of parse_trimmed
    go_quote go_quote_body go_quote_piece go_quote_byte pieces unquote read_piece string_step
    unmarshal_string string_of inside_step string_read_step run set_string scan_digits scan
    digit_value decode_pairs hex_byte hex_value load_private_key parse_private_key sources
    count_true sign_authorization split_signature verify_signed_authorization
    recover_authorization_signer recover_signed recover_signature recovery_byte compare_signer
    typed_data_hash domain_separator authorization_struct_hash type_hash sample_hash sample_sign
    sample_public sample_address sample_array sample_unhex sample_is_address pack_values pack_value
    word
run_cancel = refl

build_cancel-CancelledBy_example :
    (source : Option SignedAuthorization) × (middle : Bytes) × (cancel_source system sample no_node
        (err failed)
        cancel_options
        (codes "0x01\n")
      ≡ (ok source, middle))
    × (load_private_key system cancel_options.key middle ≡ (ok key, []))
    × CancelledBy system sample sample_laws no_node (err failed) cancel_options source key cancelled
build_cancel-CancelledBy_example =
    build_cancel-CancelledBy system sample sample_laws no_node (err failed) cancel_options
      (codes "0x01\n") [] cancelled key run_cancel

abbrev command_line : List Bytes
command_line = codes "eip3009" ∷ codes "check" ∷ []

abbrev fails : Command → List Bytes → Checked
fails command args = err failed

dispatch_iff_example : Codes fails command_line (dispatch fails command_line)
dispatch_iff_example = dispatch_iff fails command_line
