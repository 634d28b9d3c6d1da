-- ===== src/Console/Examples.antt =====
-- A key in a flag, with a reader that cannot be read.
use eip.Prelude.{◌≡◌, refl, false, inl, [], Bytes, codes}
use eip.Outcome.{ok, err}
use eip.Ethereum.Sample.{failed}
use eip.Console.{System, KeyOptions, load_private_key}
use eip.Console.Keys.{load_private_key-unread}
use eip.Fixtures.{key}

abbrev deaf : System Bytes
deaf = record {
  is_terminal = λ s. false;
  read_all = λ s. (err failed, []);
  read_terminal = λ s. (err failed, []);
  read_line = λ s. (err failed, []);
  read_file = λ path. err failed;
  decrypt_key = λ file password. err failed;
  hex_to_ecdsa = λ digits. ok key;
  random_bytes = err failed;
  now = 1000;
  is_print = λ r. false;
}

abbrev key_in_flag : KeyOptions
key_in_flag = record {
  private_key = codes "0x01";
  stdin_key = false;
  keystore_path = [];
  password = [];
  stdin_password = false;
}

load_private_key-unread_example :
    (load_private_key deaf key_in_flag (codes "input")).1 ≡ codes "input"
load_private_key-unread_example =
    load_private_key-unread deaf key_in_flag (codes "input") refl (inl (λ e. cc))
