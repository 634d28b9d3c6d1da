-- ===== src/Commands/Sign/Senders.antt =====
-- The kind and the sender of what the command sign builds.
use mathlib.Core.Path.{subst}
use eip.Amount.{parse_token_value}
use eip.Values.{parse_address_value}
use eip.Cli.Validity.{resolve_valid_before}
use eip.Prelude.{
  codes, ◌≡◌, ◌≢◌, refl, sym, ◌∙◌, inl, inr, Bool, true, false, arith, some, Bool-cases, bytes_eq,
  bytes_eq_sound, bytes_eq_refl, if◌then◌else◌,
}
use eip.Outcome.{
  wrap, ok-injective, dry_run_from, Error, Outcome, ok, err, panic, reject, >>=-eq-ok,
  Answers-split,
}
use eip.Types.{
  Address, AuthorizationKind, transfer, receive, cancel, other, Authorization, zero_address,
  normalize_authorization_kind,
}
use eip.Types.Checks.{required_signer}
use eip.Ethereum.{PrivateKey, Ethereum}
use eip.Eip712.Fields.{IsKnown}
use eip.Message.Parts.{normalize-Answers}
use eip.Console.{System, and_then}
use eip.Commands.Sign.{
  decimals_of, domain_from_args, resolve_nonce, SignOptions, Terms, is_cancel, match_key,
  sign_terms, parse_from, sender,
}

-- A chain of reads that succeeds has a first read that succeeds, and a rest that does.
pub and_then-eq-ok :
    {R A B : Type 0} {b : B} {final : R} (m : Outcome A × R) (f : A → R → Outcome B × R)
    → and_then m f ≡ (ok b, final)
    → (a : A) × (rest : R) × (m ≡ (ok a, rest)) × (f a rest ≡ (ok b, final))
and_then-eq-ok (ok a, rest) f e = (a, rest, refl, e)
and_then-eq-ok (err reason, rest) f e = cc
and_then-eq-ok (panic, rest) f e = cc

pub reject-eq-ok : (c : Bool) (e : Error) → reject c e ≡ ok tt → c ≡ false
reject-eq-ok true e h = cc
reject-eq-ok false e h = refl

pub match_key-same :
    (from key_address a : Address) → match_key from key_address ≡ ok a → a ≡ key_address
unfolding match_key
match_key-same from key_address a h = elim (Bool-cases (bytes_eq from zero_address)) [
  | inl e ↦ ground arith
  | inr e ↦ elim (Bool-cases (bytes_eq from key_address)) [
    | inl f ↦ let same = bytes_eq_sound from key_address f in ground arith
    | inr f ↦ ground arith
  ]
]

pub not_zero :
    (matched from : Address)
    → (if bytes_eq matched zero_address then err dry_run_from else ok matched) ≡ ok from
    → (matched ≡ from) × (from ≢ zero_address)
not_zero matched from e = elim (Bool-cases (bytes_eq matched zero_address)) [
  | inl z ↦ absurd (ground arith)
  | inr z ↦
      let same : matched ≡ from = ground arith in
      (
        same,
        λ zero.
            let again : bytes_eq matched zero_address ≡ true =
              rw (same, zero) (bytes_eq_refl zero_address) in
            cc (z, again),
      )
]

-- A transfer or a receive.
abbrev pub IsTransfer : AuthorizationKind → Type 0
IsTransfer transfer = Unit
IsTransfer receive = Unit
IsTransfer _ = ⊥

known-IsTransfer : (k : AuthorizationKind) → IsKnown k → is_cancel k ≡ false → IsTransfer k
known-IsTransfer transfer i h = tt
known-IsTransfer receive i h = tt
known-IsTransfer cancel i h = cc
known-IsTransfer (other t) i h = absurd i

pub transfer-signer :
    (k : AuthorizationKind) (a : Authorization) → IsTransfer k → required_signer k a ≡ a.from
transfer-signer transfer a i = refl
transfer-signer receive a i = refl
transfer-signer cancel a i = absurd i
transfer-signer (other t) a i = absurd i

module _ {R : Type 0} (system : System R) (eth : Ethereum) where
  pub sign_terms-IsTransfer :
      (o : SignOptions) (terms : Terms) → sign_terms system eth o ≡ ok terms → IsTransfer terms.kind
  unfolding sign_terms
  sign_terms-IsTransfer o terms e =
      let (kind, p, e₁) = >>=-eq-ok (normalize_authorization_kind o.kind) _ e in
      let (u, q, e₂) = >>=-eq-ok (reject (is_cancel kind) _) _ e₁ in
      let (domain, _, e₃) =
        >>=-eq-ok (domain_from_args system eth o.token o.name o.version o.chain_id) _ e₂ in
      let (to, _, e₄) =
        >>=-eq-ok (wrap (codes "--to") (parse_address_value system.is_print eth o.to)) _ e₃ in
      let (decimals, _, e₅) = >>=-eq-ok (decimals_of o.decimals) _ e₄ in
      let (value, _, e₆) = >>=-eq-ok (parse_token_value o.value o.amount decimals) _ e₅ in
      let (valid_before, _, e₇) =
        >>=-eq-ok (resolve_valid_before system.now o.valid_before o.ttl) _ e₆ in
      let (nonce, _, e₈) = >>=-eq-ok (resolve_nonce system eth o.nonce) _ e₇ in
      let known : IsKnown kind =
        (Answers-split IsKnown (normalize_authorization_kind o.kind) (normalize-Answers o.kind)).1
          kind p in
      subst (λ (t : Terms). IsTransfer t.kind) (ok-injective _ terms e₈)
        (known-IsTransfer kind known (reject-eq-ok (is_cancel kind) _ q))

  pub sender-key :
      (o : SignOptions) (key : PrivateKey) (from : Address)
      → sender system eth o (some key) ≡ ok from
      → (from ≡ eth.pubkey_to_address key.public_key) × (from ≢ zero_address)
  unfolding sender
  sender-key o key from e =
      let (given, _, e₁) = >>=-eq-ok (parse_from system eth o.from) _ e in
      let (matched, q, e₂) =
        >>=-eq-ok (match_key given (eth.pubkey_to_address key.public_key)) _ e₁ in
      let (same, nonzero) = not_zero matched from e₂ in
      (sym same ∙ match_key-same given (eth.pubkey_to_address key.public_key) matched q, nonzero)
