-- ===== src/Signing/Total.antt =====
-- Whatever is valid can be signed.
use eip.Prelude.{◌+◌, ◌≡◌, ◌∷◌, ◌++◌, refl, some, Bytes, length}
use eip.Outcome.{ok}
use eip.Types.{
  Hash, AuthorizationKind, other, Domain, Authorization, SignedAuthorization, validate_domain,
  validate_authorization,
}
use eip.Ethereum.{PrivateKey, Ethereum}
use eip.Ethereum.Laws.{EthereumLaws}
use eip.Eip712.{
  type_hash, domain_arguments, domain_values, domain_separator, struct_arguments, struct_values,
  authorization_struct_hash, typed_data_hash,
}
use eip.Eip712.Fields.{DomainFits, MessageFits, IsKnown, type_text}
use eip.Eip712.Separator.{domain-AllFit}
use eip.Eip712.Struct.{struct-AllFit, kind-IsKnown}
use eip.Signing.{sign_authorization}
use eip.Signing.RoundTrip.{sign-SignParts}

module _ (eth : Ethereum) (laws : EthereumLaws eth) where
  domain_separator-ok :
      (d : Domain)
      → validate_domain d ≡ ok tt
      → DomainFits d
      → (s : Hash) × (domain_separator eth d ≡ ok s)
  unfolding domain_separator
  domain_separator-ok d valid fits =
      let (b, packed, len, back) =
        laws.pack-fits domain_arguments (domain_values eth d) (domain-AllFit eth laws d fits) in
      (eth.keccak256 b, rw (valid, packed) refl)

  type_hash-ok :
      (k : AuthorizationKind) → IsKnown k → type_hash eth k ≡ ok (eth.keccak256 (type_text k))
  unfolding type_hash
  type_hash-ok (other text) h = absurd h
  type_hash-ok _ h = refl

  struct_hash-ok :
      (a : Authorization)
      → validate_authorization a ≡ ok tt
      → MessageFits a.kind a
      → (t : Hash) × (authorization_struct_hash eth a ≡ ok t)
  unfolding authorization_struct_hash validate_authorization
  struct_hash-ok a valid fits =
      let (b, packed, len, back) =
        laws.pack-fits (struct_arguments a.kind)
          (struct_values a.kind (eth.keccak256 (type_text a.kind)) a)
          (struct-AllFit eth laws a.kind a (type_text a.kind) fits) in
      (
        eth.keccak256 b,
        rw (valid, type_hash-ok a.kind (kind-IsKnown a.kind a tt valid), packed) refl,
      )

  typed_data_hash-ok :
      (d : Domain) (a : Authorization)
      → validate_domain d ≡ ok tt
      → validate_authorization a ≡ ok tt
      → DomainFits d
      → MessageFits a.kind a
      → (h : Hash) × (typed_data_hash eth d a ≡ ok h) × (length h ≡ 32)
  unfolding typed_data_hash
  typed_data_hash-ok d a vd va fd fa =
      let (s, es) = domain_separator-ok d vd fd in
      let (t, et) = struct_hash-ok a va fa in
      (_, rw (es, et) refl, laws.keccak256-length (0x19 ∷ 0x01 ∷ (s ++ t)))

  -- With a key for which `crypto.Sign` signs every hash of 32 bytes, `SignAuthorization` returns a
  -- signed authorization for every valid domain and every valid authorization whose fields fit their
  -- ABI types.
  pub sign_total :
      (d : Domain) (a : Authorization) (k : PrivateKey)
      → ((h : Hash) → length h ≡ 32 → (sig : Bytes) × (eth.sign h k ≡ ok sig))
      → validate_domain d ≡ ok tt
      → validate_authorization a ≡ ok tt
      → DomainFits d
      → MessageFits a.kind a
      → (out : SignedAuthorization) × (sign_authorization eth d a (some k) ≡ ok out)
  unfolding sign_authorization
  sign_total d a k signs vd va fd fa =
      let (h, eh, length_h) = typed_data_hash-ok d a vd va fd fa in
      let (sig, es) = signs h length_h in
      let parts = sign-SignParts eth laws h k sig es in
      let split = parts.split in
      (
        record {
          domain = d;
          authorization = a;
          signature = some (record { v = parts.v + 27; r = parts.r; s = parts.s });
        },
        rw (vd, va, eh, es, split) refl,
      )
