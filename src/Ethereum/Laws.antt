-- ===== src/Ethereum/Laws.antt =====
-- What the program relies on of go-ethereum, as its documentation states it.
use eip.Prelude.{ℕ, ◌*◌, ◌≤◌, ◌≡◌, ◌≢◌, List, ◌++◌, map, some, Bytes, length, get_elem?}
use eip.Prelude.{All, codes, ◌<◌, true}
use eip.Go.Hex.{encode_to_string}
use eip.Go.Strings.Trim.{IsVisible}
use eip.Types.{Address}
use eip.Outcome.{ok, panic, ◌>>=◌}
use eip.Types.{Hash}
use eip.Ethereum.{
  PrivateKey, AbiType, AbiValue, Method, Ethereum, Abi, AllFit, AllUnpacked, unpacked, find_method,
}
use eip.Abi.{eip3009_abi}

-- An array of so many bytes.
abbrev pub IsArray : ℕ → Bytes → Type 0
IsArray n b = (length b ≡ n) × All (λ c. c < 256) b

pub record EthereumLaws (eth : Ethereum) : Type 0 where
  -- A Keccak-256 hash has 32 bytes, and `BytesToHash` keeps 32 bytes as they are.
  pub keccak256-length : (b : Bytes) → length (eth.keccak256 b) ≡ 32
  pub bytes_to_hash-length : (b : Bytes) → length b ≡ 32 → eth.bytes_to_hash b ≡ b
  -- The text of an address is visible ASCII and stands for the address; the text of a hash is its
  -- bytes in hexadecimal digits behind 0x, and stands for the hash.
  pub address_hex-IsVisible : (a : Address) → IsArray 20 a → All IsVisible (eth.address_hex a)
  pub is_hex_address-address_hex :
      (a : Address) → IsArray 20 a → eth.is_hex_address (eth.address_hex a) ≡ true
  pub hex_to_address-address_hex :
      (a : Address) → IsArray 20 a → eth.hex_to_address (eth.address_hex a) ≡ a
  pub hash_hex-digits :
      (h : Hash) → IsArray 32 h → eth.hash_hex h ≡ codes "0x" ++ encode_to_string h
  pub hex_to_hash-hash_hex : (h : Hash) → IsArray 32 h → eth.hex_to_hash (eth.hash_hex h) ≡ h
  -- An address is an array of 20 bytes and a hash one of 32, whatever the text.
  pub hex_to_address-length : (s : Bytes) → length (eth.hex_to_address s) ≡ 20
  pub hex_to_hash-length : (s : Bytes) → length (eth.hex_to_hash s) ≡ 32
  -- `Sign` returns [R || S || V] with V 0 or 1, and `SigToPub` returns the key that signed.
  pub sign-length :
      (h : Hash) (k : PrivateKey) (sig : Bytes) → eth.sign h k ≡ ok sig → length sig ≡ 65
  pub sign-v :
      (h : Hash) (k : PrivateKey) (sig : Bytes) (v : ℕ)
      → eth.sign h k ≡ ok sig
      → get_elem? sig 64 ≡ some v
      → v ≤ 1
  pub sig_to_pub-sign :
      (h : Hash) (k : PrivateKey) (sig : Bytes)
      → eth.sign h k ≡ ok sig
      → eth.sig_to_pub h sig ≡ ok k.public_key
  -- Static arguments are packed into a word of 32 bytes each, and unpacked again.
  pub pack-fits :
      (ts : List AbiType) (vs : List AbiValue)
      → AllFit ts vs
      → (b : Bytes) × (eth.pack_arguments ts vs ≡ ok b)
        × (length b ≡ 32 * length ts)
        × (eth.unpack ts b ≡ ok (map unpacked vs))
  -- A call is the selector of 4 bytes of its method with the packed arguments behind it.
  pub method_id-length : (m : Method) → length (eth.method_id m) ≡ 4
  pub pack-selector :
      (abi : Abi) (name : Bytes) (m : Method) (vs : List AbiValue)
      → find_method abi name ≡ some m
      → eth.pack abi name vs ≡ (eth.pack_arguments m.inputs vs >>= λ b. ok (eth.method_id m ++ b))
  -- No two methods of the EIP-3009 interface share a selector.
  pub method_by_id-selector :
      (name : Bytes) (m : Method)
      → find_method eip3009_abi name ≡ some m
      → eth.method_by_id eip3009_abi (eth.method_id m) ≡ ok m
  -- `MethodById` and `Unpack` return an error or a method of the interface, and values of the types.
  pub method_by_id-answers :
      (id : Bytes)
      → (eth.method_by_id eip3009_abi id ≢ panic)
        × ((m : Method)
            → eth.method_by_id eip3009_abi id ≡ ok m
            → find_method eip3009_abi m.name ≡ some m)
  pub unpack-answers :
      (ts : List AbiType) (b : Bytes)
      → (eth.unpack ts b ≢ panic)
        × ((vs : List AbiValue) → eth.unpack ts b ≡ ok vs → AllUnpacked ts vs)
  -- `Unpack` of what a method returned gives one value for each of its outputs, or an error.
  pub unpack_result-answers :
      (abi : Abi) (name : Bytes) (m : Method) (b : Bytes)
      → find_method abi name ≡ some m
      → (eth.unpack_result abi name b ≢ panic)
        × ((vs : List AbiValue)
            → eth.unpack_result abi name b ≡ ok vs
            → length vs ≡ length m.outputs)
