-- ===== src/Commands/Broadcast/Gate.antt =====
-- What has to hold before the node is asked for anything.
use eip.Prelude.{◌≡◌, ◌≢◌, refl, sym, ap, ◌∙◌, Bool, true, false, [], some, Bytes}
use eip.Outcome.{Outcome, ok, err, panic, >>=-eq-ok, ok-injective}
use eip.Types.{SignedAuthorization}
use eip.Ethereum.{PrivateKey, Ethereum}
use eip.Signing.{verify_signed_authorization}
use eip.Message.{parse_message_json}
use eip.Client.{Node}
use eip.Console.{System, read_input_arg, load_private_key}
use eip.Commands.Sign.Senders.{and_then-eq-ok}
use eip.Commands.Broadcast.{
  BroadcastOptions, check_flags, check_verified, read_signed, resolve_v, prepare, with_node,
  broadcast_prepared, run_broadcast,
}

module _ {R : Type 0} (system : System R) (eth : Ethereum) where
  check_verified-ok :
      (verify : Bool) (signed out : SignedAuthorization)
      → check_verified system eth verify signed ≡ ok out
      → (out ≡ signed) × (verify ≡ true → verify_signed_authorization eth (some signed) ≡ ok tt)
  unfolding check_verified
  check_verified-ok false signed out e = (sym (ok-injective signed out e), λ v. cc)
  check_verified-ok true signed out e =
      let (u, p, e₁) = >>=-eq-ok (verify_signed_authorization eth (some signed)) _ e in
      (sym (ok-injective signed out e₁), λ _. p)

  -- The way of a message to the node.
  pub record Cleared (o : BroadcastOptions) (input : R) (resolved : SignedAuthorization)
      (key : PrivateKey) (rest : R) : Type 0 where
    pub raw : Bytes
    pub signed : SignedAuthorization
    pub after_read : R
    pub after_answer : R
    pub flags : check_flags o ≡ ok tt
    pub read : read_input_arg system o.message input ≡ (ok raw, after_read)
    pub parsed : parse_message_json eth raw ≡ ok signed
    pub verified : o.verify ≡ true → verify_signed_authorization eth (some signed) ≡ ok tt
    pub resolves :
        resolve_v system eth o.signature_v signed after_read ≡ (ok resolved, after_answer)
    pub loads : load_private_key system o.key after_answer ≡ (ok key, rest)

  prepare-Cleared :
      (o : BroadcastOptions) (input rest : R) (resolved : SignedAuthorization) (key : PrivateKey)
      → prepare system eth o input ≡ (ok (resolved, key), rest)
      → Cleared o input resolved key rest
  unfolding prepare read_signed
  prepare-Cleared o input rest resolved key e =
      let (u, i₀, p₀, e₀) = and_then-eq-ok (check_flags o, input) _ e in
      let (raw, i₁, p₁, e₁) = and_then-eq-ok (read_input_arg system o.message i₀) _ e₀ in
      let (out, i₂, p₂, e₂) = and_then-eq-ok (read_signed system eth o.verify raw, i₁) _ e₁ in
      let (res, i₃, p₃, e₃) = and_then-eq-ok (resolve_v system eth o.signature_v out i₂) _ e₂ in
      let (k, i₄, p₄, e₄) = and_then-eq-ok (load_private_key system o.key i₃) _ e₃ in
      let (signed, q, e₅) =
        >>=-eq-ok (parse_message_json eth raw) _
          (ap (λ (r : Outcome SignedAuthorization × R). r.0) p₂) in
      let (same, verified) = check_verified-ok o.verify signed out e₅ in
      let start : input ≡ i₀ = ap (λ r. r.1) p₀ in
      let kept : i₁ ≡ i₂ = ap (λ (r : Outcome SignedAuthorization × R). r.1) p₂ in
      let pair : (res, k) ≡ (resolved, key) =
        ok-injective _ _ (ap (λ (r : Outcome (SignedAuthorization × PrivateKey) × R). r.0) e₄) in
      let last : i₄ ≡ rest = ap (λ (r : Outcome (SignedAuthorization × PrivateKey) × R). r.1) e₄ in
      record {
        raw = raw;
        signed = signed;
        after_read = i₁;
        after_answer = i₃;
        flags = ap (λ r. r.0) p₀;
        read = ap (read_input_arg system o.message) start ∙ p₁;
        parsed = q;
        verified = verified;
        resolves =
            ap (resolve_v system eth o.signature_v signed) kept
            ∙ ap (λ (s : SignedAuthorization). resolve_v system eth o.signature_v s i₂) (sym same)
            ∙ p₃
            ∙ ap (λ (r : SignedAuthorization × PrivateKey). (ok r.0, i₃)) pair;
        loads =
            p₄
            ∙ ap (λ (r : SignedAuthorization × PrivateKey). (ok r.1, i₄)) pair
            ∙ ap (λ (i : R). (ok key, i)) last;
      }

  -- If the command broadcast asks anything of the node, then its flags were accepted, its input was read
  -- and parsed, with --verify the parsed authorization verified, the question of its v was resolved, a key
  -- was loaded, in this order of reads, and the node was dialled.
  pub run_broadcast-Cleared :
      (dial : Bytes → Outcome Node) (o : BroadcastOptions) (input : R)
      → (run_broadcast system eth dial o input).1 ≢ []
      → (resolved : SignedAuthorization) × (key : PrivateKey) × (rest : R) × Cleared o input
          resolved key rest
        × ((node : Node) × (dial o.rpc ≡ ok node))
  unfolding run_broadcast
  run_broadcast-Cleared dial o input asks = go (prepare system eth o input) refl asks
    where
      dialled :
          (signed : SignedAuthorization) (key : PrivateKey) (d : Outcome Node)
          → (with_node system eth o.verify signed key d).1 ≢ []
          → (node : Node) × (d ≡ ok node)
      dialled signed key (ok node) h = (node, refl)
      dialled signed key (err e) h = absurd (h refl)
      dialled signed key panic h = absurd (h refl)

      go :
          (r : Outcome (SignedAuthorization × PrivateKey) × R)
          → prepare system eth o input ≡ r
          → (broadcast_prepared system eth dial o r.0).1 ≢ []
          → (resolved : SignedAuthorization) × (key : PrivateKey) × (rest : R) × Cleared o input
              resolved key rest
            × ((node : Node) × (dial o.rpc ≡ ok node))
      go (ok (resolved, key), rest) e h = (
        resolved,
        key,
        rest,
        prepare-Cleared o input rest resolved key e,
        dialled resolved key (dial o.rpc) h,
      )
      go (err reason, rest) e h = absurd (h refl)
      go (panic, rest) e h = absurd (h refl)
