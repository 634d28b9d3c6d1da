-- ===== src/Eip712/Separator.antt =====
-- What a domain separator binds.
use eip.Prelude.{◌≡◌, ◌⊎◌, sym, ap, ◌∙◌, inl, Bytes, length}
use eip.Outcome.{ok, >>=-eq-ok}
use eip.Types.{Hash, Domain, validate_domain}
use eip.Ethereum.{Ethereum, AllFit}
use eip.Ethereum.Laws.{EthereumLaws}
use eip.Eip712.{domain_arguments, domain_values, domain_separator}
use eip.Eip712.Fields.{Collision, DomainFits, or_else, keccak256-bind, pack-bind}

same_domain :
    (d d' : Domain)
    → d.name ≡ d'.name
    → d.version ≡ d'.version
    → d.chain_id ≡ d'.chain_id
    → d.verifying_contract ≡ d'.verifying_contract
    → d ≡ d'
same_domain d d' n v c t =
    λ i. record { name = n i; version = v i; chain_id = c i; verifying_contract = t i }

module _ (eth : Ethereum) (laws : EthereumLaws eth) where
  domain_separator-packed :
      (d : Domain) (h : Hash)
      → domain_separator eth d ≡ ok h
      → (b : Bytes) × (eth.pack_arguments domain_arguments (domain_values eth d) ≡ ok b)
        × (h ≡ eth.keccak256 b)
  unfolding domain_separator
  domain_separator-packed d h e =
      let (_, _, e₁) = >>=-eq-ok (validate_domain d) _ e in
      let (b, p, e₂) = >>=-eq-ok (eth.pack_arguments domain_arguments (domain_values eth d)) _ e₁ in
      (b, p, cc e₂)

  pub domain-AllFit : (d : Domain) → DomainFits d → AllFit domain_arguments (domain_values eth d)
  domain-AllFit d f = (
    laws.keccak256-length _,
    (laws.keccak256-length _, (laws.keccak256-length _, (f.0, (f.1, tt)))),
  )

  pub domain_separator-bind :
      (d d' : Domain) (h : Hash)
      → DomainFits d
      → DomainFits d'
      → domain_separator eth d ≡ ok h
      → domain_separator eth d' ≡ ok h
      → (d ≡ d') ⊎ Collision eth
  domain_separator-bind d d' h f f' e e' =
      let (b, p, q) = domain_separator-packed d h e in
      let (b', p', q') = domain_separator-packed d' h e' in
      or_else (keccak256-bind eth laws b b' (sym q ∙ q')) λ same.
        let fields =
          pack-bind eth laws domain_arguments (domain_values eth d) (domain_values eth d') b
            (domain-AllFit d f) (domain-AllFit d' f') p (cc (p', same)) in
        or_else (keccak256-bind eth laws d.name d'.name (cc fields)) λ names.
          or_else (keccak256-bind eth laws d.version d'.version (cc fields))
            λ versions. inl (same_domain d d' names versions (cc fields) (cc fields))

  pub separator-length : (d : Domain) (s : Hash) → domain_separator eth d ≡ ok s → length s ≡ 32
  separator-length d s e =
      let (b, _, q) = domain_separator-packed d s e in ap length q ∙ laws.keccak256-length b
