-- ===== src/Console.antt =====
-- internal/cli/cli.go: where a command takes keys, passwords and documents from. The reader `in` is a
-- state that its reads change; the operating system, the key store and go-ethereum's key parser are
-- the fields of `System`. What the prompts print is left out.
pub mod Keys
mod Examples
use eip.Prelude.{
  ℕ, suc, ◌+◌, ◌%◌, Bool, true, false, ◌||◌, ◌&&◌, not, List, [], ◌∷◌, Bytes, codes, ltb, ◌==◌,
  if◌then◌else◌, bytes_eq, length,
}
use eip.Outcome.{
  input_missing, secret_empty, key_empty, one_key_source, message_and_calldata, message_or_calldata,
  Outcome, ok, err, panic, ◌>>=◌,
}
use eip.Go.Strings.{trim_space, has_prefix, trim_prefix}
use eip.Go.Hex.{decode_string}
use eip.Types.{Hash, SignedAuthorization}
use eip.Amount.{is_empty}
use eip.Ethereum.{PrivateKey, Ethereum}
use eip.Raw.{even_digits}
use eip.Message.{parse_message_json}
use eip.Calldata.{decode_execute_calldata}

-- `R` is the state of the reader.
pub record System (R : Type 0) : Type 0 where
  -- `in.(*os.File)` with term.IsTerminal, io.ReadAll, term.ReadPassword, and a line of a new bufio
  -- reader, where the end of the input is no error
  pub is_terminal : R → Bool
  pub read_all : R → Outcome Bytes × R
  pub read_terminal : R → Outcome Bytes × R
  pub read_line : R → Outcome Bytes × R
  -- os.ReadFile, keystore.DecryptKey, crypto.HexToECDSA
  pub read_file : Bytes → Outcome Bytes
  pub decrypt_key : Bytes → Bytes → Outcome PrivateKey
  pub hex_to_ecdsa : Bytes → Outcome PrivateKey
  -- rand.Read of 32 bytes, time.Now().Unix(), and the table behind unicode.IsPrint
  pub random_bytes : Outcome Bytes
  pub now : ℕ
  pub is_print : ℕ → Bool

-- A result of a call that may have read from the reader, and the calls behind it.
abbrev pub and_then {ℓ κ} :
    {R : Type 0} {A : Type ℓ} {B : Type κ} → Outcome A × R → (A → R → Outcome B × R) → Outcome B × R
and_then (ok a, input) f = f a input
and_then (err e, input) f = (err e, input)
and_then (panic, input) f = (panic, input)

-- The flags that name a private key.
pub record KeyOptions : Type 0 where
  pub private_key : Bytes
  pub stdin_key : Bool
  pub keystore_path : Bytes
  pub password : Bytes
  pub stdin_password : Bool

-- How many of them are set.
unfoldable pub count_true : List Bool → ℕ
count_true [] = 0
count_true (b ∷ bs) = let rest = count_true bs in if b then suc rest else rest

unfoldable pub sources : KeyOptions → ℕ
unfolding count_true
sources o =
    count_true (not (is_empty o.private_key) ∷ o.stdin_key ∷ not (is_empty o.keystore_path) ∷ [])

unfoldable pub looks_like_inline_data : Bytes → Bool
looks_like_inline_data value =
    has_prefix value (codes "{") || has_prefix value (codes "[") || has_prefix value (codes "0x")

unfoldable pub decode_hex_string : Bytes → Outcome Bytes
decode_hex_string value =
    decode_string (even_digits (trim_prefix (trim_prefix value (codes "0x")) (codes "0X")))

-- A file that cannot be read is taken for the text itself.
abbrev pub or_itself : Bytes → Outcome Bytes → Outcome Bytes
or_itself value (ok bytes) = ok bytes
or_itself value (err e) = ok value
or_itself value panic = panic

-- A secret that was read, without the white space around it.
unfoldable pub not_blank : Bytes → Outcome Bytes
not_blank value = if is_empty value then err secret_empty else ok value

module _ {R : Type 0} (system : System R) where
  unfoldable pub trimmed_input : Bytes → R → Outcome Bytes × R
  unfolding looks_like_inline_data
  trimmed_input value input =
      if is_empty value
      then (err input_missing, input)
      else if bytes_eq value (codes "-")
      then system.read_all input
      else if has_prefix value (codes "@")
      then (system.read_file (trim_prefix value (codes "@")), input)
      else if looks_like_inline_data value
      then (ok value, input)
      else (or_itself value (system.read_file value), input)

  unfoldable pub read_input_arg : Bytes → R → Outcome Bytes × R
  unfolding trimmed_input
  read_input_arg value input = trimmed_input (trim_space value) input

  unfoldable pub read_secret : R → Outcome Bytes × R
  read_secret input =
      if system.is_terminal input
      then and_then (system.read_terminal input) (λ bytes rest. (ok (trim_space bytes), rest))
      else and_then (system.read_line input) (λ value rest. (not_blank (trim_space value), rest))

  unfoldable pub parse_private_key : Bytes → Outcome PrivateKey
  parse_private_key value =
      let digits = trim_space (trim_prefix value (codes "0x")) in
      if is_empty digits then err key_empty else system.hex_to_ecdsa digits

  unfoldable pub read_password : KeyOptions → R → Outcome Bytes × R
  read_password o input =
      if not (is_empty o.password)
      then (ok o.password, input)
      else if o.stdin_password
      then and_then (system.read_all input) (λ bytes rest. (ok (trim_space bytes), rest))
      else read_secret input

  unfoldable pub read_interactive_private_key : R → Outcome PrivateKey × R
  read_interactive_private_key input =
      and_then (read_secret input) (λ secret rest. (parse_private_key secret, rest))

  -- The key of a key store file.
  unfoldable pub open_keystore : Bytes → Bytes → Outcome PrivateKey
  open_keystore path password = do
    bytes ← system.read_file path
    key ← system.decrypt_key bytes password
    ok key

  unfoldable pub load_private_key : KeyOptions → R → Outcome PrivateKey × R
  unfolding sources open_keystore
  load_private_key o input =
      if ltb 1 (sources o)
      then (err one_key_source, input)
      else if not (is_empty o.private_key)
      then (parse_private_key o.private_key, input)
      else if o.stdin_key
      then and_then (system.read_all input)
          (λ bytes rest. (parse_private_key (trim_space bytes), rest))
      else if not (is_empty o.keystore_path)
      then and_then (read_password o input)
          (λ password rest. (open_keystore o.keystore_path password, rest))
      else read_interactive_private_key input

  module _ (eth : Ethereum) where
    unfoldable pub authorization_of_calldata : Bytes → Outcome SignedAuthorization
    authorization_of_calldata raw = do
      bytes ← decode_hex_string (trim_space raw)
      decode_execute_calldata eth bytes

    unfoldable pub read_authorization_input : Bytes → Bytes → R → Outcome SignedAuthorization × R
    read_authorization_input message calldata input =
        if not (is_empty message) && not (is_empty calldata)
        then (err message_and_calldata, input)
        else if is_empty message && is_empty calldata
        then (err message_or_calldata, input)
        else if not (is_empty calldata)
        then and_then (read_input_arg calldata input)
            (λ raw rest. (authorization_of_calldata raw, rest))
        else and_then (read_input_arg message input)
            (λ raw rest. (parse_message_json eth raw, rest))

    -- internal/eip3009/random.go
    unfoldable pub random_nonce : Outcome Hash
    random_nonce = do bytes ← system.random_bytes; ok (eth.bytes_to_hash bytes)
