-- ===== src/Ethereum.antt =====
-- The functions of go-ethereum (and of Go's crypto/ecdsa) that the program calls. Their code is not
-- in the repository: they are the fields of a record that the model takes as a parameter, and
-- `EthereumLaws` states what their documentation promises and the program relies on.
pub mod Laws
pub mod Sample
pub mod SampleLaws
use eip.Prelude.{
  ℕ, ◌+◌, ◌^◌, ◌≤◌, ◌<◌, ◌≡◌, Bool, true, List, [], ◌∷◌, ◌++◌, Option, none, some, Bytes, length,
  bytes_eq, if◌then◌else◌, ℤ, pos, negsuc,
}
use eip.Outcome.{Outcome, ok}
use eip.Types.{Address, Hash}

-- ecdsa.PublicKey and ecdsa.PrivateKey, on the one curve that is used
pub record PublicKey : Type 0 where
  pub x : ℕ
  pub y : ℕ

pub record PrivateKey : Type 0 where
  pub public_key : PublicKey
  pub d : ℕ

-- The ABI types of the program's methods, and Go values handed to `Pack` or returned by `Unpack`.
-- A `*big.Int` may be nil.
pub data AbiType : Type 0 where
  address uint256 bytes32 uint8 bool string : AbiType

pub data AbiValue : Type 0 where
  address_value : Address → AbiValue
  big_value : Option ℤ → AbiValue
  hash_value : Hash → AbiValue
  -- [32]byte
  array_value : Bytes → AbiValue
  uint8_value : ℕ → AbiValue
  bool_value : Bool → AbiValue
  string_value : Bytes → AbiValue

pub record Method : Type 0 where
  pub name : Bytes
  pub inputs : List AbiType
  pub outputs : List AbiType

abbrev pub Abi : Type 0
Abi = List Method

-- The method of a name, the first one.
unfoldable pub find_method : Abi → Bytes → Option Method
find_method [] name = none
find_method (m ∷ abi) name = if bytes_eq m.name name then some m else find_method abi name

-- ethereum.CallMsg, and the fields of the legacy transaction that is built
pub record CallMsg : Type 0 where
  pub from : Address
  pub to : Address
  pub input : Bytes

pub record Transaction : Type 0 where
  pub nonce : ℕ
  pub to : Address
  pub value : ℤ
  pub gas : ℕ
  pub gas_price : ℤ
  pub input : Bytes

pub record Ethereum : Type 0 where
  -- crypto.Keccak256Hash, on the concatenation of its arguments
  pub keccak256 : Bytes → Hash
  -- crypto.Sign, crypto.SigToPub, crypto.PubkeyToAddress
  pub sign : Hash → PrivateKey → Outcome Bytes
  pub sig_to_pub : Hash → Bytes → Outcome PublicKey
  pub pubkey_to_address : PublicKey → Address
  -- common.BytesToHash
  pub bytes_to_hash : Bytes → Hash
  -- common.IsHexAddress, common.HexToAddress, Address.Hex, common.HexToHash, Hash.Hex
  pub is_hex_address : Bytes → Bool
  pub hex_to_address : Bytes → Address
  pub address_hex : Address → Bytes
  pub hex_to_hash : Bytes → Hash
  pub hash_hex : Hash → Bytes
  -- abi.Method.ID, the selector
  pub method_id : Method → Bytes
  -- abi.Arguments.Pack, abi.ABI.Pack, abi.ABI.MethodById, abi.Arguments.Unpack
  pub pack_arguments : List AbiType → List AbiValue → Outcome Bytes
  pub pack : Abi → Bytes → List AbiValue → Outcome Bytes
  pub method_by_id : Abi → Bytes → Outcome Method
  pub unpack : List AbiType → Bytes → Outcome (List AbiValue)
  -- abi.ABI.Unpack
  pub unpack_result : Abi → Bytes → Bytes → Outcome (List AbiValue)
  -- types.SignTx with types.LatestSignerForChainID, and Transaction.Hash; a signed transaction is
  -- its encoding
  pub sign_tx : Transaction → ℤ → PrivateKey → Outcome Bytes
  pub tx_hash : Bytes → Hash

-- A Go value that can be packed as a type, in range.
abbrev pub Fits : AbiType → AbiValue → Type 0
Fits address (address_value a) = length a ≡ 20
Fits uint256 (big_value (some (pos n))) = n < 2 ^ 256
Fits bytes32 (hash_value h) = length h ≡ 32
Fits uint8 (uint8_value n) = n < 256
Fits _ _ = ⊥

abbrev pub AllFit : List AbiType → List AbiValue → Type 0
AllFit [] [] = Unit
AllFit (t ∷ ts) (v ∷ vs) = Fits t v × AllFit ts vs
AllFit _ _ = ⊥

-- The Go value that `Unpack` returns for a packed one: a `bytes32` comes back as a [32]byte.
abbrev pub unpacked : AbiValue → AbiValue
unpacked (hash_value h) = array_value h
unpacked v = v

-- A Go value that `Unpack` returns for a type.
abbrev pub IsUnpacked : AbiType → AbiValue → Type 0
IsUnpacked address (address_value a) = length a ≡ 20
IsUnpacked uint256 (big_value (some (pos n))) = n < 2 ^ 256
IsUnpacked bytes32 (array_value b) = length b ≡ 32
IsUnpacked uint8 (uint8_value n) = n < 256
IsUnpacked bool (bool_value b) = Unit
IsUnpacked string (string_value s) = Unit
IsUnpacked _ _ = ⊥

abbrev pub AllUnpacked : List AbiType → List AbiValue → Type 0
AllUnpacked [] [] = Unit
AllUnpacked (t ∷ ts) (v ∷ vs) = IsUnpacked t v × AllUnpacked ts vs
AllUnpacked _ _ = ⊥
