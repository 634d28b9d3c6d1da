-- ===== src/Ethereum/Sample.antt =====
-- One concrete set of functions that meets the laws: it shows that they can be met, and runs in the
-- tests. The ABI words are the real ones (32 bytes, numbers big-endian); hashing, signing and the
-- selectors are stand-ins.
use native.Mathlib.Nat.{pow-suc}
use eip.Prelude.{
  ℤ, ℕ, zero, suc, ◌+◌, ◌*◌, ◌/◌, ◌%◌, ◌^◌, ◌<◌, ◌≡◌, refl, ◌∙◌, List, [], ◌∷◌, ◌++◌, none, some,
  arith, ltb, Bytes, bytes_eq, if◌then◌else◌, length, length-append, take, drop, replicate, pos,
}
use eip.Prelude.{Bool, codes, ◌==◌}
use eip.Go.Hex.{encode_to_string, decode_pairs}
use eip.Outcome.{Error, external, Outcome, ok, err, ◌>>=◌, ◌>>◌, reject}
use eip.Types.{Address, Hash}
use eip.Ethereum.{
  PublicKey, PrivateKey, Transaction, AbiType, address, uint256, bytes32, uint8, bool, string,
  AbiValue, address_value, big_value, hash_value, array_value, uint8_value, bool_value,
  string_value, Method, Abi, find_method, Ethereum,
}

-- A number in `w` bytes, the most significant first, and back.
unfoldable pub word : ℕ → ℕ → Bytes
word zero n = []
word (suc w) n = word w (n / 256) ++ (n % 256) ∷ []

unfoldable pub word_value : ℕ → Bytes → ℕ
word_value n [] = n
word_value n (c ∷ s) = word_value (n * 256 + c) s

pub word-length : (w n : ℕ) → length (word w n) ≡ w
unfolding word
word-length zero n = refl
word-length (suc w) n =
    omega
      (arith, length-append {A = ℕ} (word w (n / 256)) ((n % 256) ∷ []), word-length w (n / 256))

word_value-append : (n : ℕ) (s t : Bytes) → word_value n (s ++ t) ≡ word_value (word_value n s) t
unfolding word_value
word_value-append n [] t = refl
word_value-append n (c ∷ s) t = word_value-append (n * 256 + c) s t

pub word_value-word : (w n : ℕ) → n < 256 ^ w → word_value 0 (word w n) ≡ n
unfolding word_value word
word_value-word zero n h = omega arith
word_value-word (suc w) n h =
    let small : n / 256 < 256 ^ w = omega (arith, pow-suc 256 w) in
    word_value-append 0 (word w (n / 256)) _ ∙ omega (arith, word_value-word w (n / 256) small)

abbrev pub failed : Error
failed = external []

-- One packed value.
unfoldable pub pack_value : AbiType → AbiValue → Outcome Bytes
pack_value address (address_value a) = ok (replicate 12 0 ++ a)
pack_value uint256 (big_value (some (pos n))) = ok (word 32 n)
pack_value bytes32 (hash_value h) = ok h
pack_value uint8 (uint8_value n) = ok (word 32 n)
pack_value _ _ = err failed

unfoldable pub unpack_value : AbiType → Bytes → AbiValue
unpack_value address b = address_value (drop 12 b)
unpack_value uint256 b = big_value (some (pos (word_value 0 b % 2 ^ 256)))
unpack_value bytes32 b = array_value b
unpack_value uint8 b = uint8_value (word_value 0 b % 256)
unpack_value bool b = bool_value (bytes_eq b (word 32 1))
unpack_value string b = string_value b

unfoldable pub pack_values : List AbiType → List AbiValue → Outcome Bytes
unfolding pack_value
pack_values [] [] = ok []
pack_values (t ∷ ts) (v ∷ vs) = do b ← pack_value t v; rest ← pack_values ts vs; ok (b ++ rest)
pack_values _ _ = err failed

unfoldable pub unpack_values : List AbiType → Bytes → Outcome (List AbiValue)
unfolding unpack_value
unpack_values [] b = ok []
unpack_values (t ∷ ts) b = do
  reject (ltb (length b) 32) failed
  vs ← unpack_values ts (drop 32 b)
  ok (unpack_value t (take 32 b) ∷ vs)

-- The length of the name in four bytes, which tells the methods apart.
unfoldable pub sample_id : Method → Bytes
sample_id m = 0 ∷ 0 ∷ 0 ∷ length m.name ∷ []

unfoldable pub sample_by_id : Abi → Bytes → Outcome Method
unfolding sample_id
sample_by_id [] id = err failed
sample_by_id (m ∷ abi) id = if bytes_eq (sample_id m) id then ok m else sample_by_id abi id

unfoldable pub sample_pack : Abi → Bytes → List AbiValue → Outcome Bytes
unfolding sample_id
sample_pack abi name vs = elim (find_method abi name) [
  | none ↦ err failed
  | some m ↦ pack_values m.inputs vs >>= λ b. ok (sample_id m ++ b)
]

-- 32 bytes of a text.
unfoldable pub sample_hash : Bytes → Bytes
sample_hash b = take 32 (b ++ replicate 32 0)

-- The two coordinates of the key, each in a word.
unfoldable pub sample_sign : Hash → PrivateKey → Outcome Bytes
sample_sign h k =
    ok (((k.public_key.x ∷ replicate 31 0) ++ (k.public_key.y ∷ replicate 31 0)) ++ 0 ∷ [])

abbrev first_or_zero : Bytes → ℕ
first_or_zero [] = 0
first_or_zero (c ∷ s) = c

unfoldable pub sample_public : Hash → Bytes → Outcome PublicKey
sample_public h sig = ok (record { x = first_or_zero sig; y = first_or_zero (drop 32 sig) })

unfoldable pub sample_address : PublicKey → Address
sample_address p = replicate 19 7 ++ p.x ∷ []

unfoldable pub sample_result : Abi → Bytes → Bytes → Outcome (List AbiValue)
unfolding unpack_values
sample_result abi name b = elim (find_method abi name) [
  | none ↦ err failed
  | some m ↦ unpack_values m.outputs b
]

-- The sender's nonce and the input, signed by one byte of the key.
unfoldable pub sample_sign_tx : Transaction → ℤ → PrivateKey → Outcome Bytes
sample_sign_tx tx chain k = ok (k.public_key.x ∷ tx.nonce ∷ tx.gas ∷ tx.input)

-- The text without a case checksum.
unfoldable pub sample_hex : Bytes → Bytes
sample_hex b = codes "0x" ++ encode_to_string b

-- The bytes of the digits behind 0x.
unfoldable pub sample_unhex : Bytes → Bytes
sample_unhex s = elim (decode_pairs (drop 2 s)) [ none ↦ [] | some b ↦ b ]

-- The same in an array of `n` bytes.
unfoldable pub sample_array : ℕ → Bytes → Bytes
unfolding sample_unhex
sample_array n s = take n (sample_unhex s ++ replicate n 0)

unfoldable pub sample_is_address : Bytes → Bool
sample_is_address s = length (sample_unhex s) == 20

unfoldable pub sample : Ethereum
unfolding sample_hex sample_unhex sample_array sample_is_address sample_hash sample_sign
    sample_public sample_address pack_values sample_pack sample_by_id sample_id unpack_values
sample = record {
  keccak256 = sample_hash;
  sign = sample_sign;
  sig_to_pub = sample_public;
  pubkey_to_address = sample_address;
  bytes_to_hash = sample_hash;
  is_hex_address = sample_is_address;
  hex_to_address = sample_array 20;
  address_hex = sample_hex;
  hex_to_hash = sample_array 32;
  hash_hex = sample_hex;
  method_id = sample_id;
  pack_arguments = pack_values;
  pack = sample_pack;
  method_by_id = sample_by_id;
  unpack = unpack_values;
  unpack_result = sample_result;
  sign_tx = sample_sign_tx;
  tx_hash = sample_hash;
}
