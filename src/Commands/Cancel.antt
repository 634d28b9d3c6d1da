-- ===== src/Commands/Cancel.antt =====
-- `buildCancelAuthorization` of internal/cli/cli.go: what the command cancel builds of its flags and of
-- the message that it may be given. The node is asked only for the chain id and for the token's texts.
pub mod Verified
use eip.Prelude.{
  ℕ, ◌%◌, Bool, true, false, not, ◌||◌, [], ◌∷◌, Option, none, some, Bytes, codes, ltb,
  if◌then◌else◌, bytes_eq, ℤ, pos, negsuc,
}
use eip.Outcome.{
  sign_cancels, decimals_overflow, dry_run_from, verification_failed, token_missing, nonce_missing,
  key_mismatch, Outcome, Checked, ok, err, panic, ◌>>=◌, ◌>>◌, reject, wrap,
}
use eip.Go.Strings.{to_lower}
use eip.Types.{
  Address, Hash, zero_address, AuthorizationKind, cancel, Domain, Authorization,
  SignedAuthorization, normalize_authorization_kind,
}
use eip.Amount.{is_empty, parse_token_value}
use eip.Ethereum.{PrivateKey, Ethereum}
use eip.Signing.{sign_authorization, verify_signed_authorization}
use eip.Support.{ContractCaller, token_name, token_version}
use eip.Message.{parse_message_json}
use eip.Values.{parse_address_value, parse_hash_value, parse_big_int_value}
use eip.Cli.Validity.{resolve_valid_before}
use eip.Console.{System, KeyOptions, and_then, read_input_arg, load_private_key, random_nonce}

pub record CancelOptions : Type 0 where
  pub message : Bytes
  pub token : Bytes
  pub name : Bytes
  pub version : Bytes
  pub chain_id : Bytes
  pub authorizer : Bytes
  pub nonce : Bytes
  pub key : KeyOptions

unfoldable pub cancellation_of : Address → Hash → Authorization
cancellation_of authorizer nonce = record {
  kind = cancel;
  from = zero_address;
  to = zero_address;
  value = none;
  valid_after = 0;
  valid_before = 0;
  nonce = nonce;
  authorizer = authorizer;
}

-- `cancelDomain` and `cancelNonce` start from the source.
abbrev pub source_domain : Option SignedAuthorization → Domain
source_domain none = record {
  name = [];
  version = [];
  chain_id = none;
  verifying_contract = zero_address;
}
source_domain (some source) = source.domain

abbrev pub authorizer_named : AuthorizationKind → Authorization → Address
authorizer_named cancel auth = auth.authorizer
authorizer_named _ auth = auth.from

-- `if value != ""`
abbrev pub unless_empty : Bytes → Bytes → Bytes
unless_empty value old = if is_empty value then old else value

module _ {R : Type 0} (system : System R) (eth : Ethereum) where
  unfoldable pub cancel_nonce : CancelOptions → Option SignedAuthorization → Outcome Hash
  cancel_nonce o none =
      if not (is_empty o.nonce)
      then parse_hash_value system.is_print eth o.nonce
      else err nonce_missing
  cancel_nonce o (some source) =
      if not (is_empty o.nonce)
      then parse_hash_value system.is_print eth o.nonce
      else ok source.authorization.nonce

  -- The address that has to have the key.
  unfoldable pub cancel_authorizer :
      CancelOptions → Option SignedAuthorization → Address → Outcome Address
  cancel_authorizer o source key_address =
      if not (is_empty o.authorizer)
      then wrap (codes "--from/--authorizer") (parse_address_value system.is_print eth o.authorizer)
      else elim source [
        | none ↦ ok key_address
        | some signed ↦ ok (authorizer_named signed.authorization.kind signed.authorization)
      ]

  -- A part of the domain that a flag sets.
  unfoldable pub flag_contract : Bytes → Address → Outcome Address
  flag_contract arg old =
      if is_empty arg
      then ok old
      else wrap (codes "--token") (parse_address_value system.is_print eth arg)

  abbrev pub as_some : Outcome ℤ → Outcome (Option ℤ)
  as_some r = r >>= λ x. ok (some x)

  unfoldable pub flag_chain : Bytes → Option ℤ → Outcome (Option ℤ)
  flag_chain arg old =
      if is_empty arg
      then ok old
      else as_some (wrap (codes "--chain-id") (parse_big_int_value system.is_print arg))

  module _ (caller : ContractCaller) (chain_id : Outcome ℤ) where
    unfoldable pub node_chain : Option ℤ → Outcome (Option ℤ)
    node_chain none = as_some chain_id
    node_chain (some x) = ok (some x)

    unfoldable pub cancel_domain : CancelOptions → Option SignedAuthorization → Outcome Domain
    unfolding flag_contract flag_chain node_chain
    cancel_domain o source = do
      let old = source_domain source
      contract ← flag_contract o.token old.verifying_contract
      let given_name = unless_empty o.name old.name
      let given_version = unless_empty o.version old.version
      given_chain ← flag_chain o.chain_id old.chain_id
      reject (bytes_eq contract zero_address) token_missing
      chain ← node_chain given_chain
      name ←
          if is_empty given_name
          then wrap (codes "fetch token name or provide --name") (token_name eth caller contract)
          else ok given_name
      version ←
          if is_empty given_version
          then wrap (codes "fetch token version or provide --version")
              (token_version eth caller contract)
          else ok given_version
      ok (record {
        name = name;
        version = version;
        chain_id = chain;
        verifying_contract = contract;
      })

    -- `buildCancelAuthorization` behind the source and the key.
    unfoldable pub cancel_with :
        CancelOptions
        → Option SignedAuthorization
        → PrivateKey
        → Outcome (SignedAuthorization × PrivateKey)
    unfolding cancel_domain cancel_nonce cancel_authorizer
    cancel_with o source key = do
      let key_address = eth.pubkey_to_address key.public_key
      domain ← cancel_domain o source
      nonce ← cancel_nonce o source
      authorizer ← cancel_authorizer o source key_address
      reject (not (bytes_eq authorizer key_address)) (key_mismatch authorizer key_address)
      signed ← sign_authorization eth domain (cancellation_of authorizer nonce) (some key)
      ok (signed, key)

    unfoldable pub cancel_source : CancelOptions → R → Outcome (Option SignedAuthorization) × R
    cancel_source o input =
        if is_empty o.message
        then (ok none, input)
        else and_then (read_input_arg system o.message input)
            (λ raw rest. ((parse_message_json eth raw >>= λ signed. ok (some signed)), rest))

    unfoldable pub build_cancel_authorization :
        CancelOptions → R → Outcome (SignedAuthorization × PrivateKey) × R
    unfolding cancel_source cancel_with
    build_cancel_authorization o input = and_then (cancel_source o input) (λ source rest.
        and_then (load_private_key system o.key rest)
          (λ key final. (cancel_with o source key, final)))
