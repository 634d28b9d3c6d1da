-- ===== src/Calldata/Values.antt =====
-- Unpacked values of the types of an execution call, taken apart.
use eip.Prelude.{ℕ, ◌^◌, ◌<◌, ◌≡◌, refl, List, [], ◌∷◌, map, some, length, pos}
use eip.Types.{Address, Hash, zero_address, transfer, cancel, Authorization, Signature}
use eip.Ethereum.{
  AbiType, address, uint256, bytes32, uint8, AbiValue, address_value, big_value, array_value,
  uint8_value, unpacked, IsUnpacked, AllUnpacked,
}
use eip.Calldata.{call_values}
use eip.Calldata.RoundTrip.{SignatureFits, execute_inputs}

-- A list of values of a row of types starts with a value of the first type.
AllUnpacked-head :
    (t : AbiType) (ts : List AbiType) (vs : List AbiValue)
    → AllUnpacked (t ∷ ts) vs
    → (v : AbiValue) × (ws : List AbiValue) × (vs ≡ v ∷ ws) × IsUnpacked t v × AllUnpacked ts ws
AllUnpacked-head t ts (v ∷ vs) h = (v, vs, refl, h.0, h.1)
AllUnpacked-head t ts [] h = absurd h

AllUnpacked-nil : (vs : List AbiValue) → AllUnpacked [] vs → vs ≡ []
AllUnpacked-nil [] h = refl
AllUnpacked-nil (v ∷ vs) h = absurd h

is_address :
    (v : AbiValue) → IsUnpacked address v → (a : Address) × (v ≡ address_value a) × (length a ≡ 20)
is_address (address_value a) h = (a, refl, h)
is_address v h = absurd h

is_uint256 :
    (v : AbiValue) → IsUnpacked uint256 v → (n : ℕ) × (v ≡ big_value (some (pos n))) × (n < 2 ^ 256)
is_uint256 (big_value (some (pos n))) h = (n, refl, h)
is_uint256 v h = absurd h

is_bytes32 :
    (v : AbiValue) → IsUnpacked bytes32 v → (b : Hash) × (v ≡ array_value b) × (length b ≡ 32)
is_bytes32 (array_value b) h = (b, refl, h)
is_bytes32 v h = absurd h

is_uint8 : (v : AbiValue) → IsUnpacked uint8 v → (n : ℕ) × (v ≡ uint8_value n) × (n < 256)
is_uint8 (uint8_value n) h = (n, refl, h)
is_uint8 v h = absurd h

-- The last three arguments.
abbrev signature_inputs : List AbiType
signature_inputs = uint8 ∷ bytes32 ∷ bytes32 ∷ []

signature_values :
    (vs : List AbiValue)
    → AllUnpacked signature_inputs vs
    → (sig : Signature) × (vs ≡ uint8_value sig.v ∷ array_value sig.r ∷ array_value sig.s ∷ [])
      × SignatureFits sig
signature_values vs h =
    let (v₁, w₁, e₁, t₁, h₁) = AllUnpacked-head uint8 (bytes32 ∷ bytes32 ∷ []) vs h in
    let (v₂, w₂, e₂, t₂, h₂) = AllUnpacked-head bytes32 (bytes32 ∷ []) w₁ h₁ in
    let (v₃, w₃, e₃, t₃, h₃) = AllUnpacked-head bytes32 [] w₂ h₂ in
    let (v, is_v, v_fits) = is_uint8 v₁ t₁ in
    let (r, is_r, r_fits) = is_bytes32 v₂ t₂ in
    let (s, is_s, s_fits) = is_bytes32 v₃ t₃ in
    let none_left : w₃ ≡ [] = AllUnpacked-nil w₃ h₃ in
    (record { v = v; r = r; s = s }, cc, (v_fits, r_fits, s_fits))

-- Values of the types of a transfer are the values of some transfer; its times need not fit a uint64.
pub record TransferValues (vs : List AbiValue) : Type 0 where
  pub a : Authorization
  pub sig : Signature
  pub are : vs ≡ map unpacked (call_values transfer a sig)
  pub from_fits : length a.from ≡ 20
  pub to_fits : length a.to ≡ 20
  pub value : ℕ
  pub is_value : a.value ≡ some (pos value)
  pub value_fits : value < 2 ^ 256
  pub nonce_fits : length a.nonce ≡ 32
  pub sig_fits : SignatureFits sig

-- The three numbers and the nonce of a transfer.
abbrev terms_inputs : List AbiType
terms_inputs = uint256 ∷ uint256 ∷ uint256 ∷ bytes32 ∷ signature_inputs

pub transfer_values :
    (vs : List AbiValue) → AllUnpacked (execute_inputs transfer) vs → TransferValues vs
transfer_values vs h =
    let (v₁, w₁, e₁, t₁, h₁) = AllUnpacked-head address (address ∷ terms_inputs) vs h in
    let (v₂, w₂, e₂, t₂, h₂) = AllUnpacked-head address terms_inputs w₁ h₁ in
    let (v₃, w₃, e₃, t₃, h₃) =
      AllUnpacked-head uint256 (uint256 ∷ uint256 ∷ bytes32 ∷ signature_inputs) w₂ h₂ in
    let (v₄, w₄, e₄, t₄, h₄) =
      AllUnpacked-head uint256 (uint256 ∷ bytes32 ∷ signature_inputs) w₃ h₃ in
    let (v₅, w₅, e₅, t₅, h₅) = AllUnpacked-head uint256 (bytes32 ∷ signature_inputs) w₄ h₄ in
    let (v₆, w₆, e₆, t₆, h₆) = AllUnpacked-head bytes32 signature_inputs w₅ h₅ in
    let (sig, are_signature, sig_fits) = signature_values w₆ h₆ in
    let (from, is_from, from_fits) = is_address v₁ t₁ in
    let (to, is_to, to_fits) = is_address v₂ t₂ in
    let (value, is_value, value_fits) = is_uint256 v₃ t₃ in
    let (after, is_after, after_fits) = is_uint256 v₄ t₄ in
    let (before, is_before, before_fits) = is_uint256 v₅ t₅ in
    let (nonce, is_nonce, nonce_fits) = is_bytes32 v₆ t₆ in
    record {
      a = record {
        kind = transfer;
        from = from;
        to = to;
        value = some (pos value);
        valid_after = after;
        valid_before = before;
        nonce = nonce;
        authorizer = zero_address;
      };
      sig = sig;
      are = cc;
      from_fits = from_fits;
      to_fits = to_fits;
      value = value;
      is_value = refl;
      value_fits = value_fits;
      nonce_fits = nonce_fits;
      sig_fits = sig_fits;
    }

pub record CancelValues (vs : List AbiValue) : Type 0 where
  pub authorizer : Address
  pub nonce : Hash
  pub sig : Signature
  pub are :
      vs
      ≡ address_value authorizer
        ∷ array_value nonce
        ∷ uint8_value sig.v
        ∷ array_value sig.r
        ∷ array_value sig.s
        ∷ []
  pub authorizer_fits : length authorizer ≡ 20
  pub nonce_fits : length nonce ≡ 32
  pub sig_fits : SignatureFits sig

pub cancel_values : (vs : List AbiValue) → AllUnpacked (execute_inputs cancel) vs → CancelValues vs
cancel_values vs h =
    let (v₁, w₁, e₁, t₁, h₁) = AllUnpacked-head address (bytes32 ∷ signature_inputs) vs h in
    let (v₂, w₂, e₂, t₂, h₂) = AllUnpacked-head bytes32 signature_inputs w₁ h₁ in
    let (sig, are_signature, sig_fits) = signature_values w₂ h₂ in
    let (authorizer, is_authorizer, authorizer_fits) = is_address v₁ t₁ in
    let (nonce, is_nonce, nonce_fits) = is_bytes32 v₂ t₂ in
    record {
      authorizer = authorizer;
      nonce = nonce;
      sig = sig;
      are = cc;
      authorizer_fits = authorizer_fits;
      nonce_fits = nonce_fits;
      sig_fits = sig_fits;
    }
