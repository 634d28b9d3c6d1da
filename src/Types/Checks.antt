-- ===== src/Types/Checks.antt =====
-- The checks of domains and authorizations against descriptions of what they are to accept.
use eip.Prelude.{
  ℕ, ◌<◌, ◌≡◌, ◌≢◌, ◌↔◌, refl, true, false, [], Option, some, none, arith, Bytes, ne→==, bytes_eq,
  bytes_eq_iff, bytes_ne, ℤ, pos, negsuc,
}
use eip.Outcome.{ok}
use eip.Types.{
  Address, zero_address, AuthorizationKind, transfer, receive, cancel, other, Domain, Authorization,
  not_positive, missing_or_negative, validate_domain, validate_transfer, validate_kind,
  validate_authorization, signer_of, signer_address,
}

-- A domain that can be signed for.
pub record ValidDomain (d : Domain) : Type 0 where
  pub named : d.name ≢ []
  pub versioned : d.version ≢ []
  pub chain : (n : ℕ) × (d.chain_id ≡ some (pos n)) × (0 < n)
  pub contract : d.verifying_contract ≢ zero_address

-- A transfer or a receive that can be signed.
pub record ValidTransfer (a : Authorization) : Type 0 where
  pub sender : a.from ≢ zero_address
  pub recipient : a.to ≢ zero_address
  pub amount : (n : ℕ) × (a.value ≡ some (pos n))

abbrev pub ValidFor : AuthorizationKind → Authorization → Type 0
ValidFor cancel a = a.authorizer ≢ zero_address
ValidFor (other text) a = ⊥
ValidFor _ a = ValidTransfer a

-- The address that has to sign an authorization of a kind.
abbrev pub required_signer : AuthorizationKind → Authorization → Address
required_signer cancel a = a.authorizer
required_signer _ a = a.from

positive_chain : (o : Option ℤ) → not_positive o ≡ false → (n : ℕ) × (o ≡ some (pos n)) × (0 < n)
unfolding not_positive
positive_chain none h = cc
positive_chain (some (pos n)) h = (n, refl, ground arith)
positive_chain (some (negsuc n)) h = cc

not_negative : (o : Option ℤ) → missing_or_negative o ≡ false → (n : ℕ) × (o ≡ some (pos n))
unfolding missing_or_negative
not_negative none h = cc
not_negative (some (pos n)) h = (n, refl)
not_negative (some (negsuc n)) h = cc

differs : (x y : Bytes) → bytes_eq x y ≡ false → x ≢ y
differs x y h e = let same : bytes_eq x y ≡ true = (bytes_eq_iff x y).1 e in cc (h, same)

-- `validateDomain` accepts exactly the valid domains.
pub validate_domain_iff : (d : Domain) → (validate_domain d ≡ ok tt) ↔ ValidDomain d
unfolding validate_domain
validate_domain_iff d = (sound, complete)
  where
    sound : validate_domain d ≡ ok tt → ValidDomain d
    sound h = record {
      named = differs d.name [] (ground arith);
      versioned = differs d.version [] (ground arith);
      chain = positive_chain d.chain_id (ground arith);
      contract = differs d.verifying_contract zero_address (ground arith);
    }

    complete : ValidDomain d → validate_domain d ≡ ok tt
    complete v = rw (
      bytes_ne d.name [] v.named,
      bytes_ne d.version [] v.versioned,
      v.chain.1,
      ne→== v.chain.0 0 (omega arith),
      bytes_ne d.verifying_contract zero_address v.contract,
    )

validate_transfer_sound : (a : Authorization) → validate_transfer a ≡ ok tt → ValidTransfer a
unfolding validate_transfer
validate_transfer_sound a h = record {
  sender = differs a.from zero_address (ground arith);
  recipient = differs a.to zero_address (ground arith);
  amount = not_negative a.value (ground arith);
}

validate_transfer_complete : (a : Authorization) → ValidTransfer a → validate_transfer a ≡ ok tt
unfolding validate_transfer
validate_transfer_complete a v =
    rw (bytes_ne a.from zero_address v.sender, bytes_ne a.to zero_address v.recipient, v.amount.1)

validate_kind_iff :
    (k : AuthorizationKind) (a : Authorization) → (validate_kind k a ≡ ok tt) ↔ ValidFor k a
unfolding validate_kind
validate_kind_iff transfer a = (validate_transfer_sound a, validate_transfer_complete a)
validate_kind_iff receive a = (validate_transfer_sound a, validate_transfer_complete a)
validate_kind_iff cancel a = (
  (λ h. differs a.authorizer zero_address (ground arith)),
  λ v. rw (bytes_ne a.authorizer zero_address v),
)
validate_kind_iff (other text) a = ((λ h. cc), λ v. absurd v)

-- `validateAuthorization` accepts exactly the authorizations of the three kinds that are valid for
-- their kind.
pub validate_authorization_iff :
    (a : Authorization) → (validate_authorization a ≡ ok tt) ↔ ValidFor a.kind a
unfolding validate_authorization
validate_authorization_iff a = validate_kind_iff a.kind a

signer_of-valid :
    (k : AuthorizationKind) (a : Authorization)
    → ValidFor k a
    → signer_of k a ≡ ok (required_signer k a)
unfolding signer_of
signer_of-valid transfer a v = rw (bytes_ne a.from zero_address v.sender)
signer_of-valid receive a v = rw (bytes_ne a.from zero_address v.sender)
signer_of-valid cancel a v = rw (bytes_ne a.authorizer zero_address v)
signer_of-valid (other text) a v = absurd v

-- An authorization that passes the checks has a signer: the sender of a transfer or a receive, the
-- authorizer of a cancellation.
pub signer_address-valid :
    (a : Authorization)
    → validate_authorization a ≡ ok tt
    → signer_address a ≡ ok (required_signer a.kind a)
unfolding signer_address
signer_address-valid a h = signer_of-valid a.kind a ((validate_authorization_iff a).0 h)
