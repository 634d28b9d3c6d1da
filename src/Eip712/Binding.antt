-- ===== src/Eip712/Binding.antt =====
-- What the signed hash binds: equal hashes come from equal domains and messages, or show two byte
-- texts on which Keccak-256 collides.
use eip.Prelude.{
  ◌≡◌, ◌⊎◌, sym, ap, ◌∙◌, inl, ◌∷◌, ◌++◌, Bytes, length, take, drop, take-append, drop-append,
}
use eip.Outcome.{ok, >>=-eq-ok}
use eip.Types.{Hash, Domain, Authorization}
use eip.Ethereum.{Ethereum}
use eip.Ethereum.Laws.{EthereumLaws}
use eip.Eip712.{domain_separator, authorization_struct_hash, typed_data_hash}
use eip.Eip712.Fields.{Collision, DomainFits, MessageFits, SameMessage, or_else, keccak256-bind}
use eip.Eip712.Separator.{domain_separator-bind, separator-length}
use eip.Eip712.Struct.{struct_hash-bind}

-- Texts of one length with one text behind a common prefix of two bytes.
halves :
    (s s' t t' : Bytes)
    → length s ≡ 32
    → length s' ≡ 32
    → ◌≡◌ {A = Bytes} (0x19 ∷ 0x01 ∷ (s ++ t)) (0x19 ∷ 0x01 ∷ (s' ++ t'))
    → (s ≡ s') × (t ≡ t')
halves s s' t t' n n' e =
    let whole : s ++ t ≡ s' ++ t' = ap (drop 2) e in
    (
      sym (take-append s t 32 n) ∙ ap (take 32) whole ∙ take-append s' t' 32 n',
      sym (drop-append s t 32 n) ∙ ap (drop 32) whole ∙ drop-append s' t' 32 n',
    )

module _ (eth : Ethereum) (laws : EthereumLaws eth) where
  typed_data_hash-parts :
      (d : Domain) (a : Authorization) (h : Hash)
      → typed_data_hash eth d a ≡ ok h
      → (s : Hash) × (t : Hash) × (domain_separator eth d ≡ ok s)
        × (authorization_struct_hash eth a ≡ ok t)
        × (h ≡ eth.keccak256 (0x19 ∷ 0x01 ∷ (s ++ t)))
  unfolding typed_data_hash
  typed_data_hash-parts d a h e =
      let (s, p, e₁) = >>=-eq-ok (domain_separator eth d) _ e in
      let (t, q, e₂) = >>=-eq-ok (authorization_struct_hash eth a) _ e₁ in (s, t, p, q, cc e₂)

  -- Two pairs of a domain and an authorization that have one typed-data hash, and whose chain ids,
  -- values (below 2^256, not negative), addresses, times and nonces fit their ABI types, are the same
  -- domain and two authorizations of one kind that agree on every field that this kind signs, or else
  -- they show two texts on which Keccak-256 collides.
  pub typed_data_hash-binds :
      (d d' : Domain) (a a' : Authorization) (h : Hash)
      → DomainFits d
      → DomainFits d'
      → MessageFits a.kind a
      → MessageFits a'.kind a'
      → typed_data_hash eth d a ≡ ok h
      → typed_data_hash eth d' a' ≡ ok h
      → ((d ≡ d') × (a.kind ≡ a'.kind) × SameMessage a.kind a a') ⊎ Collision eth
  typed_data_hash-binds d d' a a' h fd fd' fa fa' e e' =
      let (s, t, ps, pt, q) = typed_data_hash-parts d a h e in
      let (s', t', ps', pt', q') = typed_data_hash-parts d' a' h e' in
      or_else (keccak256-bind eth laws _ _ (sym q ∙ q')) λ same.
        let (left, right) =
          halves s s' t t' (separator-length eth laws d s ps) (separator-length eth laws d' s' ps')
            same in
        or_else (domain_separator-bind eth laws d d' s fd fd' ps (rw left ps')) λ domains.
          or_else (struct_hash-bind eth laws a a' t fa fa' pt (rw right pt'))
            λ messages. inl (domains, messages.0, messages.1)
