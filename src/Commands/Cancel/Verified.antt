-- ===== src/Commands/Cancel/Verified.antt =====
-- What the command cancel signs is signed by its authorizer.
use mathlib.Core.Path.{subst}
use eip.Prelude.{
  ◌≡◌, refl, sym, ap, ◌∙◌, Bool, true, false, not, Option, some, bytes_eq, bytes_eq_sound, ℤ,
}
use eip.Outcome.{Outcome, ok, reject, >>=-eq-ok, ok-injective, key_mismatch}
use eip.Types.{
  Address, Hash, cancel, Authorization, Domain, SignedAuthorization, validate_domain,
  validate_authorization,
}
use eip.Ethereum.{PrivateKey, Ethereum}
use eip.Ethereum.Laws.{EthereumLaws}
use eip.Signing.{sign_authorization, verify_signed_authorization}
use eip.Signing.RoundTrip.{sign-recover}
use eip.Support.{ContractCaller}
use eip.Console.{System, load_private_key}
use eip.Commands.Sign.Senders.{and_then-eq-ok, reject-eq-ok}
use eip.Commands.Cancel.{
  CancelOptions, cancellation_of, cancel_domain, cancel_nonce, cancel_authorizer, cancel_with,
  cancel_source, build_cancel_authorization,
}

negated : (c : Bool) → not c ≡ false → c ≡ true
negated true h = refl
negated false h = cc

module _ {R : Type 0} (system : System R) (eth : Ethereum) (laws : EthereumLaws eth)
    (caller : ContractCaller) (chain_id : Outcome ℤ) where
  -- A cancellation signed by its authorizer, with what was found for it.
  pub record CancelledBy (o : CancelOptions) (source : Option SignedAuthorization)
      (key : PrivateKey) (signed : SignedAuthorization) : Type 0 where
    pub kind-same : signed.authorization.kind ≡ cancel
    pub authorizer-key : signed.authorization.authorizer ≡ eth.pubkey_to_address key.public_key
    pub authorizer-named :
        cancel_authorizer system eth o source (eth.pubkey_to_address key.public_key)
        ≡ ok signed.authorization.authorizer
    pub nonce-same : cancel_nonce system eth o source ≡ ok signed.authorization.nonce
    pub domain-same : cancel_domain system eth caller chain_id o source ≡ ok signed.domain
    pub domain_checked : validate_domain signed.domain ≡ ok tt
    pub message_checked : validate_authorization signed.authorization ≡ ok tt
    pub verifies : verify_signed_authorization eth (some signed) ≡ ok tt

  sign-CancelledBy :
      (o : CancelOptions) (source : Option SignedAuthorization) (key : PrivateKey) (d : Domain)
      (nonce : Hash) (authorizer : Address) (signed : SignedAuthorization)
      → cancel_domain system eth caller chain_id o source ≡ ok d
      → cancel_nonce system eth o source ≡ ok nonce
      → cancel_authorizer system eth o source (eth.pubkey_to_address key.public_key) ≡ ok authorizer
      → authorizer ≡ eth.pubkey_to_address key.public_key
      → sign_authorization eth d (cancellation_of authorizer nonce) (some key) ≡ ok signed
      → CancelledBy o source key signed
  unfolding cancellation_of
  sign-CancelledBy o source key d nonce authorizer signed hd hn ha same e =
      let (same_d, same_a, cd, ca, _, _, verdict) =
        sign-recover eth laws d (cancellation_of authorizer nonce) key signed e in
      record {
        kind-same = ap (λ (a : Authorization). a.kind) same_a;
        authorizer-key = ap (λ (a : Authorization). a.authorizer) same_a ∙ same;
        authorizer-named = ha ∙ ap (λ (a : Authorization). ok a.authorizer) (sym same_a);
        nonce-same = hn ∙ ap (λ (a : Authorization). ok a.nonce) (sym same_a);
        domain-same = hd ∙ ap ok (sym same_d);
        domain_checked = rw same_d cd;
        message_checked = rw same_a ca;
        verifies = verdict.1 (sym same);
      }

  cancel_with-CancelledBy :
      (o : CancelOptions) (source : Option SignedAuthorization) (key key' : PrivateKey)
      (signed : SignedAuthorization)
      → cancel_with system eth caller chain_id o source key ≡ ok (signed, key')
      → (key' ≡ key) × CancelledBy o source key signed
  unfolding cancel_with
  cancel_with-CancelledBy o source key key' signed e =
      let address = eth.pubkey_to_address key.public_key in
      let (d, hd, e₁) = >>=-eq-ok (cancel_domain system eth caller chain_id o source) _ e in
      let (nonce, hn, e₂) = >>=-eq-ok (cancel_nonce system eth o source) _ e₁ in
      let (authorizer, ha, e₃) = >>=-eq-ok (cancel_authorizer system eth o source address) _ e₂ in
      let (_, same, e₄) =
        >>=-eq-ok (reject (not (bytes_eq authorizer address)) (key_mismatch authorizer address)) _
          e₃ in
      let (out, p, e₅) =
        >>=-eq-ok (sign_authorization eth d (cancellation_of authorizer nonce) (some key)) _ e₄ in
      let pair = ok-injective _ (signed, key') e₅ in
      let equal : authorizer ≡ address =
        bytes_eq_sound authorizer address (negated _ (reject-eq-ok _ _ same)) in
      (
        sym (ap (λ (r : SignedAuthorization × PrivateKey). r.1) pair),
        subst (CancelledBy o source key) (ap (λ (r : SignedAuthorization × PrivateKey). r.0) pair)
            (sign-CancelledBy o source key d nonce authorizer out hd hn ha equal p),
      )

  -- If the command cancel builds an authorization, it is a cancellation that was signed by the key that
  -- loadPrivateKey returned, behind what was read of the message: its nonce and domain are those of
  -- cancelNonce and cancelDomain, its authorizer is the one that the flag or else the message names and is
  -- the key's address, domain and message have passed their checks, and VerifySignedAuthorization accepts
  -- it.
  pub build_cancel-CancelledBy :
      (o : CancelOptions) (input rest : R) (signed : SignedAuthorization) (key : PrivateKey)
      → build_cancel_authorization system eth caller chain_id o input ≡ (ok (signed, key), rest)
      → (source : Option SignedAuthorization) × (middle : R) × (cancel_source system eth caller
            chain_id o input
          ≡ (ok source, middle))
        × (load_private_key system o.key middle ≡ (ok key, rest))
        × CancelledBy o source key signed
  unfolding build_cancel_authorization
  build_cancel-CancelledBy o input rest signed key e =
      let (source, middle, p, e₁) =
        and_then-eq-ok (cancel_source system eth caller chain_id o input) _ e in
      let (key', final, q, e₂) = and_then-eq-ok (load_private_key system o.key middle) _ e₁ in
      let done : cancel_with system eth caller chain_id o source key' ≡ ok (signed, key) =
        ap (λ (r : Outcome (SignedAuthorization × PrivateKey) × R). r.0) e₂ in
      let last : final ≡ rest =
        ap (λ (r : Outcome (SignedAuthorization × PrivateKey) × R). r.1) e₂ in
      let (same, by) = cancel_with-CancelledBy o source key' key signed done in
      (
        source,
        middle,
        p,
        q ∙ ap (λ (r : R). (ok key', r)) last ∙ ap (λ (k : PrivateKey). (ok k, rest)) (sym same),
        subst (λ (k : PrivateKey). CancelledBy o source k signed) (sym same) by,
      )
