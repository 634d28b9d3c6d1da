-- ===== src/Eip712/Fields.antt =====
-- The fields that are signed, and what a hash and a packed text say of their arguments.
use eip.Prelude.{
  ◌*◌, ◌^◌, ◌<◌, ◌≡◌, ◌≢◌, ◌⊎◌, refl, ap, ◌∙◌, true, false, inl, inr, List, map, Bytes, Bool-cases,
  bytes_eq, bytes_eq_sound, bytes_eq_refl, length,
}
use eip.Outcome.{ok}
use eip.Types.{AuthorizationKind, transfer, receive, cancel, other, Domain, Authorization}
use eip.Ethereum.{Ethereum, AbiType, uint256, AbiValue, big_value, Fits, AllFit, unpacked}
use eip.Ethereum.Laws.{EthereumLaws}
use eip.Eip712.{transfer_type, receive_type, cancel_type}

-- Two different texts with one hash.
abbrev pub Collision : Ethereum → Type 0
Collision eth = (x : Bytes) × (y : Bytes) × (x ≢ y) × (eth.keccak256 x ≡ eth.keccak256 y)

-- The fields that are signed fit their ABI types.
abbrev pub DomainFits : Domain → Type 0
DomainFits d = Fits uint256 (big_value d.chain_id) × (length d.verifying_contract ≡ 20)

abbrev pub MessageFits : AuthorizationKind → Authorization → Type 0
MessageFits cancel a = (length a.authorizer ≡ 20) × (length a.nonce ≡ 32)
MessageFits _ a =
    (length a.from ≡ 20)
    × (length a.to ≡ 20)
    × Fits uint256 (big_value a.value)
    × (a.valid_after < 2 ^ 64)
    × (a.valid_before < 2 ^ 64)
    × (length a.nonce ≡ 32)

-- Two authorizations of one kind agree on everything that this kind signs.
abbrev pub SameMessage : AuthorizationKind → Authorization → Authorization → Type 0
SameMessage cancel a b = (a.authorizer ≡ b.authorizer) × (a.nonce ≡ b.nonce)
SameMessage _ a b =
    (a.from ≡ b.from)
    × (a.to ≡ b.to)
    × (a.value ≡ b.value)
    × (a.valid_after ≡ b.valid_after)
    × (a.valid_before ≡ b.valid_before)
    × (a.nonce ≡ b.nonce)

-- The text whose hash is the type hash of a kind.
abbrev pub type_text : AuthorizationKind → Bytes
type_text transfer = transfer_type
type_text receive = receive_type
type_text cancel = cancel_type
type_text (other text) = text

-- One of the three constants.
abbrev pub IsKnown : AuthorizationKind → Type 0
IsKnown (other text) = ⊥
IsKnown _ = Unit

pub or_else : {A B C : Type 0} → A ⊎ C → (A → B ⊎ C) → B ⊎ C
or_else (inl a) f = f a
or_else (inr c) f = inr c

differ : (x y : Bytes) → bytes_eq x y ≡ false → x ≢ y
differ x y e p = let same : bytes_eq x y ≡ true = rw p (bytes_eq_refl y) in cc (e, same)

pub texts_differ : transfer_type ≢ receive_type
texts_differ = differ transfer_type receive_type (unfold bytes_eq in refl)

module _ (eth : Ethereum) (laws : EthereumLaws eth) where
  pub keccak256-bind : (x y : Bytes) → eth.keccak256 x ≡ eth.keccak256 y → (x ≡ y) ⊎ Collision eth
  keccak256-bind x y h = elim (Bool-cases (bytes_eq x y)) [
    | inl e ↦ inl (bytes_eq_sound x y e)
    | inr e ↦ inr (x, y, (λ p. differ x y e p), h)
  ]

  -- What one packed text was packed from.
  pub pack-bind :
      (ts : List AbiType) (vs ws : List AbiValue) (b : Bytes)
      → AllFit ts vs
      → AllFit ts ws
      → eth.pack_arguments ts vs ≡ ok b
      → eth.pack_arguments ts ws ≡ ok b
      → map unpacked vs ≡ map unpacked ws
  pack-bind ts vs ws b hv hw p q =
      let (b₁, p₁, _, u₁) = laws.pack-fits ts vs hv in
      let (b₂, p₂, _, u₂) = laws.pack-fits ts ws hw in cc (p, q, p₁, p₂, u₁, u₂)

  -- No packed text is a packed text of another number of words.
  pub pack-length :
      (ts : List AbiType) (vs : List AbiValue) (b : Bytes)
      → AllFit ts vs
      → eth.pack_arguments ts vs ≡ ok b
      → length b ≡ 32 * length ts
  pack-length ts vs b fits p =
      let (b', p', n, _) = laws.pack-fits ts vs fits in
      let same : b ≡ b' = cc (p, p') in ap length same ∙ n
