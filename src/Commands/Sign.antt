-- ===== src/Commands/Sign.antt =====
-- `buildSignedAuthorization` of internal/cli/cli.go: what the command sign builds of its flags. A `*uint8`
-- and a `*bool` that may be nil are options.
pub mod Verified
pub mod Senders
use eip.Prelude.{
  ℕ, ◌%◌, Bool, true, false, not, ◌||◌, [], ◌∷◌, Option, none, some, Bytes, codes, ltb,
  if◌then◌else◌, bytes_eq, ℤ, pos, negsuc,
}
use eip.Outcome.{
  sign_cancels, decimals_overflow, dry_run_from, verification_failed, token_missing, nonce_missing,
  key_mismatch, Outcome, Checked, ok, err, panic, ◌>>=◌, ◌>>◌, reject, wrap,
}
use eip.Go.Strings.{to_lower}
use eip.Types.{
  Address, Hash, zero_address, AuthorizationKind, cancel, Domain, Authorization,
  SignedAuthorization, normalize_authorization_kind,
}
use eip.Amount.{is_empty, parse_token_value}
use eip.Ethereum.{PrivateKey, Ethereum}
use eip.Signing.{sign_authorization, verify_signed_authorization}
use eip.Support.{ContractCaller, token_name, token_version}
use eip.Message.{parse_message_json}
use eip.Values.{parse_address_value, parse_hash_value, parse_big_int_value}
use eip.Cli.Validity.{resolve_valid_before}
use eip.Console.{System, KeyOptions, and_then, read_input_arg, load_private_key, random_nonce}

pub record SignOptions : Type 0 where
  pub token : Bytes
  pub name : Bytes
  pub version : Bytes
  pub chain_id : Bytes
  pub from : Bytes
  pub to : Bytes
  pub value : Bytes
  pub amount : Bytes
  pub decimals : ℤ
  pub valid_after : ℕ
  pub valid_before : ℕ
  pub ttl : ℕ
  pub nonce : Bytes
  pub key : KeyOptions
  pub dry_run : Bool
  pub verify : Bool
  pub kind : Bytes

-- What a signed authorization is made of, but for its sender.
pub record Terms : Type 0 where
  pub kind : AuthorizationKind
  pub domain : Domain
  pub to : Address
  pub value : ℤ
  pub valid_before : ℕ
  pub nonce : Hash

-- `opts.decimals >= 0`
unfoldable pub decimals_of : ℤ → Outcome (Option ℕ)
decimals_of (pos n) = if ltb 255 n then err decimals_overflow else ok (some (n % 256))
decimals_of (negsuc n) = ok none

abbrev pub is_cancel : AuthorizationKind → Bool
is_cancel cancel = true
is_cancel _ = false

-- An authorization for a transfer or a receive.
unfoldable pub authorization_for : Terms → ℕ → Address → Authorization
authorization_for terms valid_after from = record {
  kind = terms.kind;
  from = from;
  to = terms.to;
  value = some terms.value;
  valid_after = valid_after;
  valid_before = terms.valid_before;
  nonce = terms.nonce;
  authorizer = zero_address;
}

-- `if from == (common.Address{})`, and the comparison with the key's address
unfoldable pub match_key : Address → Address → Outcome Address
match_key from key_address =
    if bytes_eq from zero_address
    then ok key_address
    else if not (bytes_eq from key_address)
    then err (key_mismatch from key_address)
    else ok from

abbrev pub succeeds : Checked → Outcome Bool
succeeds (ok u) = ok true
succeeds (err e) = ok false
succeeds panic = panic

module _ {R : Type 0} (system : System R) (eth : Ethereum) where
  unfoldable pub domain_from_args : Bytes → Bytes → Bytes → Bytes → Outcome Domain
  domain_from_args token_arg name version chain_arg = do
    token ← wrap (codes "--token") (parse_address_value system.is_print eth token_arg)
    chain_id ← wrap (codes "--chain-id") (parse_big_int_value system.is_print chain_arg)
    ok (record {
      name = name;
      version = version;
      chain_id = some chain_id;
      verifying_contract = token;
    })

  -- strings.EqualFold with "random", whose letters have no other case than that of ASCII
  unfoldable pub resolve_nonce : Bytes → Outcome Hash
  resolve_nonce value =
      if is_empty value || bytes_eq (to_lower value) (codes "random")
      then random_nonce system eth
      else parse_hash_value system.is_print eth value

  -- `buildSignedAuthorization` up to the private key.
  unfoldable pub sign_terms : SignOptions → Outcome Terms
  unfolding domain_from_args resolve_nonce decimals_of
  sign_terms o = do
    kind ← normalize_authorization_kind o.kind
    reject (is_cancel kind) sign_cancels
    domain ← domain_from_args o.token o.name o.version o.chain_id
    to ← wrap (codes "--to") (parse_address_value system.is_print eth o.to)
    decimals ← decimals_of o.decimals
    value ← parse_token_value o.value o.amount decimals
    valid_before ← resolve_valid_before system.now o.valid_before o.ttl
    nonce ← resolve_nonce o.nonce
    ok (record {
      kind = kind;
      domain = domain;
      to = to;
      value = value;
      valid_before = valid_before;
      nonce = nonce;
    })

  unfoldable pub parse_from : Bytes → Outcome Address
  parse_from from =
      if is_empty from
      then ok zero_address
      else wrap (codes "--from") (parse_address_value system.is_print eth from)

  -- The sender, once there is a key or none.
  unfoldable pub sender : SignOptions → Option PrivateKey → Outcome Address
  unfolding parse_from match_key
  sender o none = do
    from ← parse_from o.from
    if bytes_eq from zero_address then err dry_run_from else ok from
  sender o (some key) = do
    from ← parse_from o.from
    matched ← match_key from (eth.pubkey_to_address key.public_key)
    if bytes_eq matched zero_address then err dry_run_from else ok matched

  -- `if opts.verify`
  unfoldable pub check_signed : Bool → SignedAuthorization → Outcome (Option Bool)
  check_signed false signed = ok none
  check_signed true signed = do
    valid ← succeeds (verify_signed_authorization eth (some signed))
    if valid then ok (some true) else err verification_failed

  -- The rest, with the key or with none.
  unfoldable pub finish_signed :
      SignOptions → Terms → Option PrivateKey → Outcome (SignedAuthorization × Option Bool)
  unfolding check_signed
  finish_signed o terms none = do
    from ← sender o none
    ok (
      record {
        authorization = authorization_for terms o.valid_after from;
        domain = terms.domain;
        signature = none;
      },
      none,
    )
  finish_signed o terms (some key) = do
    from ← sender o (some key)
    signed ←
        sign_authorization eth terms.domain (authorization_for terms o.valid_after from) (some key)
    valid ← check_signed o.verify signed
    ok (signed, valid)

  unfoldable pub with_terms :
      SignOptions → R → Terms → Outcome (SignedAuthorization × Option Bool) × R
  unfolding finish_signed
  with_terms o input terms =
      if o.dry_run
      then (finish_signed o terms none, input)
      else and_then (load_private_key system o.key input)
          (λ key rest. (finish_signed o terms (some key), rest))

  unfoldable pub build_signed_authorization :
      SignOptions → R → Outcome (SignedAuthorization × Option Bool) × R
  unfolding sign_terms with_terms
  build_signed_authorization o input =
      and_then (sign_terms o, input) (λ terms rest. with_terms o rest terms)
