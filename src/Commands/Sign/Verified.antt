-- ===== src/Commands/Sign/Verified.antt =====
-- What the command sign returns is signed by its sender.
use mathlib.Core.Path.{subst}
use eip.Prelude.{
  ◌≡◌, ◌≢◌, ◌⊎◌, refl, sym, ap, ◌∙◌, inl, inr, Bool, true, false, Option, none, some, Bool-cases,
  if◌then◌else◌,
}
use eip.Outcome.{verification_failed, err, ok-injective, Outcome, ok, >>=-eq-ok}
use eip.Types.{
  Authorization, Domain, SignedAuthorization, zero_address, validate_domain, validate_authorization,
}
use eip.Ethereum.{PrivateKey, Ethereum}
use eip.Ethereum.Laws.{EthereumLaws}
use eip.Signing.{sign_authorization, verify_signed_authorization}
use eip.Signing.RoundTrip.{sign-recover}
use eip.Console.{System, KeyOptions, load_private_key, random_nonce}
use eip.Commands.Sign.{
  succeeds, domain_from_args, resolve_nonce, SignOptions, Terms, authorization_for, sign_terms,
  parse_from, sender, check_signed, finish_signed, with_terms, build_signed_authorization,
}
use eip.Commands.Sign.Senders.{
  and_then-eq-ok, not_zero, IsTransfer, transfer-signer, sign_terms-IsTransfer, sender-key,
}

if-verdict :
    (c : Bool) (checked : Option Bool)
    → (if c then ok (some true) else err verification_failed) ≡ ok checked
    → checked ≡ some true
if-verdict true checked e = cc
if-verdict false checked e = cc

module _ {R : Type 0} (system : System R) (eth : Ethereum) (laws : EthereumLaws eth) where
  -- What is returned with a key.
  pub record SignedBy (o : SignOptions) (key : PrivateKey) (signed : SignedAuthorization)
      : Type 0 where
    pub kind-IsTransfer : IsTransfer signed.authorization.kind
    pub from-key : signed.authorization.from ≡ eth.pubkey_to_address key.public_key
    pub domain_checked : validate_domain signed.domain ≡ ok tt
    pub message_checked : validate_authorization signed.authorization ≡ ok tt
    pub verifies : verify_signed_authorization eth (some signed) ≡ ok tt

  sign-SignedBy :
      (o : SignOptions) (key : PrivateKey) (d : Domain) (a : Authorization)
      (signed : SignedAuthorization)
      → IsTransfer a.kind
      → a.from ≡ eth.pubkey_to_address key.public_key
      → sign_authorization eth d a (some key) ≡ ok signed
      → SignedBy o key signed
  sign-SignedBy o key d a signed i from e =
      let (same_d, same_a, cd, ca, _, _, verdict) = sign-recover eth laws d a key signed e in
      record {
        kind-IsTransfer = rw same_a i;
        from-key = rw same_a from;
        domain_checked = rw same_d cd;
        message_checked = rw same_a ca;
        verifies = verdict.1 (sym from ∙ sym (transfer-signer a.kind a i));
      }

  finish-SignedBy :
      (o : SignOptions) (terms : Terms) (key : PrivateKey) (signed : SignedAuthorization)
      (valid : Option Bool)
      → IsTransfer terms.kind
      → finish_signed system eth o terms (some key) ≡ ok (signed, valid)
      → SignedBy o key signed
  unfolding finish_signed
  finish-SignedBy o terms key signed valid i e =
      let (from, p, e₁) = >>=-eq-ok (sender system eth o (some key)) _ e in
      let a = authorization_for terms o.valid_after from in
      let (out, q, e₂) = >>=-eq-ok (sign_authorization eth terms.domain a (some key)) _ e₁ in
      let (checked, _, e₃) = >>=-eq-ok (check_signed system eth o.verify out) _ e₂ in
      let same : out ≡ signed =
        ap (λ (r : SignedAuthorization × Option Bool). r.0) (ok-injective _ _ e₃) in
      subst (SignedBy o key) same (
        sign-SignedBy o key terms.domain a out (unfold authorization_for in i)
          (unfold authorization_for in (sender-key system eth o key from p).0) q)

  -- The verdict that is returned with a key.
  abbrev pub verdict_of : Bool → Option Bool
  verdict_of true = some true
  verdict_of false = none

  check_signed-verdict :
      (verify : Bool) (signed : SignedAuthorization) (checked : Option Bool)
      → check_signed system eth verify signed ≡ ok checked
      → checked ≡ verdict_of verify
  unfolding check_signed
  check_signed-verdict false signed checked e = cc
  check_signed-verdict true signed checked e =
      let (accepted, _, e₁) =
        >>=-eq-ok (succeeds (verify_signed_authorization eth (some signed))) _ e in
      if-verdict accepted checked e₁

  finish-verdict :
      (o : SignOptions) (terms : Terms) (key : PrivateKey) (signed : SignedAuthorization)
      (valid : Option Bool)
      → finish_signed system eth o terms (some key) ≡ ok (signed, valid)
      → valid ≡ verdict_of o.verify
  unfolding finish_signed
  finish-verdict o terms key signed valid e =
      let (from, p, e₁) = >>=-eq-ok (sender system eth o (some key)) _ e in
      let a = authorization_for terms o.valid_after from in
      let (out, q, e₂) = >>=-eq-ok (sign_authorization eth terms.domain a (some key)) _ e₁ in
      let (checked, c, e₃) = >>=-eq-ok (check_signed system eth o.verify out) _ e₂ in
      let same : checked ≡ valid =
        ap (λ (r : SignedAuthorization × Option Bool). r.1) (ok-injective _ _ e₃) in
      sym same ∙ check_signed-verdict o.verify out checked c

  -- What is returned without a key.
  pub record Unsigned (signed : SignedAuthorization) (valid : Option Bool) : Type 0 where
    pub kind-IsTransfer : IsTransfer signed.authorization.kind
    pub no_signature : signed.signature ≡ none
    pub no_verdict : valid ≡ none
    pub from-given : signed.authorization.from ≢ zero_address

  finish-Unsigned :
      (o : SignOptions) (terms : Terms) (signed : SignedAuthorization) (valid : Option Bool)
      → IsTransfer terms.kind
      → finish_signed system eth o terms none ≡ ok (signed, valid)
      → Unsigned signed valid
  unfolding finish_signed sender
  finish-Unsigned o terms signed valid i e =
      let (from, p, e₁) = >>=-eq-ok (sender system eth o none) _ e in
      let (given, _, p₁) = >>=-eq-ok (parse_from system eth o.from) _ p in
      let (_, nonzero) = not_zero given from p₁ in
      let pair = ok-injective _ (signed, valid) e₁ in
      subst (λ (r : SignedAuthorization × Option Bool). Unsigned r.0 r.1) pair
        (record {
          kind-IsTransfer = unfold authorization_for in i;
          no_signature = refl;
          no_verdict = refl;
          from-given = unfold authorization_for in nonzero;
        })

  -- A system of the same clock, random source and printable characters, whatever its reader, its
  -- files, its key stores and its key parser do.
  abbrev pub with_clock : System R → System R
  with_clock elsewhere = record elsewhere {
    random_bytes = system.random_bytes;
    now = system.now;
    is_print = system.is_print;
  }

  -- The result of a dry run, which is also that of every other such system, with any key flags and any
  -- state of its reader, and that state is left as it was.
  abbrev pub IgnoresKeys : SignOptions → SignedAuthorization × Option Bool → Type 0
  IgnoresKeys o result =
      (elsewhere : System R) (flags : KeyOptions) (input : R)
      → build_signed_authorization (with_clock elsewhere) eth (record o { key = flags }) input
        ≡ (ok result, input)

  dry-IgnoresKeys :
      (o : SignOptions) (terms : Terms) (result : SignedAuthorization × Option Bool)
      → o.dry_run ≡ true
      → sign_terms system eth o ≡ ok terms
      → finish_signed system eth o terms none ≡ ok result
      → IgnoresKeys o result
  unfolding build_signed_authorization with_terms sign_terms domain_from_args resolve_nonce
      random_nonce finish_signed sender parse_from
  dry-IgnoresKeys o terms result dry first last elsewhere flags input = rw (first, dry, last) refl

  -- What is returned with --dry-run, or without.
  abbrev pub Built : SignOptions → R → R → SignedAuthorization → Option Bool → Type 0
  Built o input rest signed valid =
      ((o.dry_run ≡ false)
        × ((key : PrivateKey) × (load_private_key system o.key input ≡ (ok key, rest))
            × SignedBy o key signed
            × (valid ≡ verdict_of o.verify)))
      ⊎ ((o.dry_run ≡ true)
          × (rest ≡ input)
          × Unsigned signed valid
          × IgnoresKeys o (signed, valid))

  with_terms-Built :
      (o : SignOptions) (input rest : R) (terms : Terms) (signed : SignedAuthorization)
      (valid : Option Bool)
      → sign_terms system eth o ≡ ok terms
      → with_terms system eth o input terms ≡ (ok (signed, valid), rest)
      → Built o input rest signed valid
  unfolding with_terms sender
  with_terms-Built o input rest terms signed valid first e =
      let i = sign_terms-IsTransfer system eth o terms first in
      elim (Bool-cases o.dry_run) [
        | inl dry ↦
            let e₁ = rw dry at e in
            let last : finish_signed system eth o terms none ≡ ok (signed, valid) =
              ap (λ (r : Outcome (SignedAuthorization × Option Bool) × R). r.0) e₁ in
            inr (
              dry,
              sym (ap (λ (r : Outcome (SignedAuthorization × Option Bool) × R). r.1) e₁),
              finish-Unsigned o terms signed valid i last,
              dry-IgnoresKeys o terms (signed, valid) dry first last,
            )
        | inr wet ↦
            let e₁ = rw wet at e in
            let (key, middle, p, e₂) = and_then-eq-ok (load_private_key system o.key input) _ e₁ in
            let done : finish_signed system eth o terms (some key) ≡ ok (signed, valid) =
              ap (λ (r : Outcome (SignedAuthorization × Option Bool) × R). r.0) e₂ in
            let same : middle ≡ rest =
              ap (λ (r : Outcome (SignedAuthorization × Option Bool) × R). r.1) e₂ in
            inl (
              wet,
              (
                key,
                p ∙ ap (λ (r : R). (ok key, r)) same,
                finish-SignedBy o terms key signed valid i done,
                finish-verdict o terms key signed valid done,
              ),
            )
      ]

  -- If the command sign builds an authorization, it is a transfer or a receive. Without --dry-run it
  -- was signed by the key that loadPrivateKey returns: its sender is the key's address, domain and
  -- message have passed their checks, VerifySignedAuthorization accepts it, and its verdict is true with
  -- --verify and left out without. With --dry-run there is no signature and no verdict, the sender is
  -- not the zero address, the reader is left as it was, and the result is the same for all key flags and
  -- for all that the reader, the files, the key stores and the key parser may do.
  pub build_signed-SignedBy :
      (o : SignOptions) (input rest : R) (signed : SignedAuthorization) (valid : Option Bool)
      → build_signed_authorization system eth o input ≡ (ok (signed, valid), rest)
      → Built o input rest signed valid
  unfolding build_signed_authorization
  build_signed-SignedBy o input rest signed valid e =
      let (terms, middle, p, e₁) = and_then-eq-ok (sign_terms system eth o, input) _ e in
      let first : sign_terms system eth o ≡ ok terms = ap (λ (r : Outcome Terms × R). r.0) p in
      let same : input ≡ middle = ap (λ (r : Outcome Terms × R). r.1) p in
      let e₂ =
        subst (λ (r : R). with_terms system eth o r terms ≡ (ok (signed, valid), rest)) (sym same)
          e₁ in
      with_terms-Built o input rest terms signed valid first e₂
