-- ===== src/Signing/RoundTrip.antt =====
-- What is signed is recovered and verified.
use eip.Prelude.{
  ℕ, ◌+◌, ◌%◌, ◌≤◌, ◌≡◌, ◌↔◌, ◌⊎◌, refl, sym, ap, ◌∙◌, true, false, inl, inr, [], ◌∷◌, ◌++◌, some,
  arith, Bytes, Bool-cases, bytes_eq, bytes_eq_refl, bytes_eq_sound, length, length-append,
  get_elem?, take, drop, append_assoc, take-append, drop-append, take-append-drop, length-take,
  length-drop, get_elem?-append,
}
use eip.Outcome.{ok, ◌>>=◌, >>=-eq-ok}
use eip.Types.{
  Address, Hash, Domain, Authorization, Signature, SignedAuthorization, validate_domain,
  validate_authorization,
}
use eip.Types.Checks.{required_signer, signer_address-valid}
use eip.Ethereum.{PrivateKey, Ethereum}
use eip.Ethereum.Laws.{EthereumLaws}
use eip.Eip712.{typed_data_hash}
use eip.Signing.{
  recovery_byte, split_signature, sign_authorization, recover_signature,
  recover_authorization_signer, compare_signer, verify_signed_authorization,
}

-- A text of 65 bytes is two words and a byte.
record Parts (sig : Bytes) : Type 0 where
  r : Bytes
  s : Bytes
  v : ℕ
  spelled : sig ≡ r ++ s ++ v ∷ []
  r_length : length r ≡ 32
  s_length : length s ≡ 32

singleton_of : (xs : Bytes) → length xs ≡ 1 → (x : ℕ) × (xs ≡ x ∷ [])
singleton_of [] h = absurd (omega arith)
singleton_of (x ∷ []) h = (x, refl)
singleton_of (x ∷ y ∷ xs) h = absurd (omega arith)

parts_of : (sig : Bytes) → length sig ≡ 65 → Parts sig
parts_of sig h =
    let rest : Bytes = drop 32 sig in
    let last : length (drop 32 rest) ≡ 1 =
      omega (arith, length-drop {A = ℕ} 32 rest, length-drop {A = ℕ} 32 sig) in
    let (v, e) = singleton_of (drop 32 rest) last in
    record {
      r = take 32 sig;
      s = take 32 rest;
      v = v;
      spelled =
          sym (take-append-drop 32 sig)
          ∙ ap (λ (t : Bytes). take 32 sig ++ t) (sym (take-append-drop 32 rest))
          ∙ sym (append_assoc (take 32 sig) (take 32 rest) (drop 32 rest))
          ∙ ap (λ (t : Bytes). take 32 sig ++ take 32 rest ++ t) e;
      r_length = length-take 32 sig (omega arith);
      s_length = length-take 32 rest (omega (arith, length-drop {A = ℕ} 32 sig));
    }

module _ (r s : Bytes) (v : ℕ) (hr : length r ≡ 32) (hs : length s ≡ 32) where
  parts-length : length (r ++ s ++ v ∷ []) ≡ 65
  parts-length = omega (arith, length-append {A = ℕ} (r ++ s) (v ∷ []), length-append {A = ℕ} r s)

  parts-v : get_elem? (r ++ s ++ v ∷ []) 64 ≡ some v
  parts-v = get_elem?-append (r ++ s) v [] 64 (omega (arith, length-append {A = ℕ} r s))

  parts-r : take 32 (r ++ s ++ v ∷ []) ≡ r
  parts-r = ap (take 32) (append_assoc r s (v ∷ [])) ∙ take-append r (s ++ v ∷ []) 32 hr

  parts-s : take 32 (drop 32 (r ++ s ++ v ∷ [])) ≡ s
  parts-s =
      ap (λ (t : Bytes). take 32 (drop 32 t)) (append_assoc r s (v ∷ []))
      ∙ ap (take 32) (drop-append r (s ++ v ∷ []) 32 hr)
      ∙ take-append s (v ∷ []) 32 hs

recovery_byte-add : (v : ℕ) → v ≤ 1 → recovery_byte (v + 27) ≡ ok v
unfolding recovery_byte
recovery_byte-add v h = ground arith

v_cases : (v : ℕ) → v ≤ 1 → ((v + 27 ≡ 27) ⊎ (v + 27 ≡ 28))
v_cases v h = grind arith

module _ (eth : Ethereum) (laws : EthereumLaws eth) where
  split_signature-parts :
      (r s : Bytes) (v : ℕ)
      → length r ≡ 32
      → length s ≡ 32
      → split_signature eth (r ++ s ++ v ∷ []) ≡ ok (record { v = (v + 27) % 256; r = r; s = s })
  unfolding split_signature
  split_signature-parts r s v hr hs = rw (
    parts-v r s v hr hs,
    parts-length r s v hr hs,
    parts-r r s v hr hs,
    parts-s r s v hr hs,
    laws.bytes_to_hash-length r hr,
    laws.bytes_to_hash-length s hs,
  )

  -- The two words and the recovery id in the bytes of `crypto.Sign`.
  pub record SignParts (h : Hash) (k : PrivateKey) (sig : Bytes) : Type 0 where
    pub r : Bytes
    pub s : Bytes
    pub v : ℕ
    pub v_small : v ≤ 1
    pub spelled : sig ≡ r ++ s ++ v ∷ []
    pub split : split_signature eth sig ≡ ok (record { v = v + 27; r = r; s = s })

  pub sign-SignParts :
      (h : Hash) (k : PrivateKey) (sig : Bytes) → eth.sign h k ≡ ok sig → SignParts h k sig
  sign-SignParts h k sig p = from_parts (parts_of sig (laws.sign-length h k sig p))
    where
      from_parts : Parts sig → SignParts h k sig
      from_parts ps =
          let last : get_elem? sig 64 ≡ some ps.v =
            ap (λ (t : Bytes). get_elem? t 64) ps.spelled
            ∙ parts-v ps.r ps.s ps.v ps.r_length ps.s_length in
          let small : ps.v ≤ 1 = laws.sign-v h k sig ps.v p last in
          let no_wrap : (ps.v + 27) % 256 ≡ ps.v + 27 = omega arith in
          record {
            r = ps.r;
            s = ps.s;
            v = ps.v;
            v_small = small;
            spelled = ps.spelled;
            split =
                ap (split_signature eth) ps.spelled
                ∙ split_signature-parts ps.r ps.s ps.v ps.r_length ps.s_length
                ∙ ap (λ (n : ℕ). ok (record { v = n; r = ps.r; s = ps.s })) no_wrap;
          }

  -- What `SignAuthorization` returns, if it returns: both inputs as they were, and the signature of
  -- their hash with 27 added to its recovery id.
  record Signed (d : Domain) (a : Authorization) (k : PrivateKey) (out : SignedAuthorization)
      : Type 0 where
    hash : Hash
    r : Bytes
    s : Bytes
    v : ℕ
    v_small : v ≤ 1
    domain_checked : validate_domain d ≡ ok tt
    message_checked : validate_authorization a ≡ ok tt
    hashed : typed_data_hash eth d a ≡ ok hash
    signed_by : eth.sign hash k ≡ ok (r ++ s ++ v ∷ [])
    result : out ≡ record {
      authorization = a;
      domain = d;
      signature = some (record { v = v + 27; r = r; s = s });
    }

  conclude :
      (d : Domain) (a : Authorization) (k : PrivateKey) (out : SignedAuthorization) (h : Hash)
      (sig : Bytes)
      → validate_domain d ≡ ok tt
      → validate_authorization a ≡ ok tt
      → typed_data_hash eth d a ≡ ok h
      → eth.sign h k ≡ ok sig
      → (split_signature eth sig >>= λ parts.
          ok (record { authorization = a; domain = d; signature = some parts }))
        ≡ ok out
      → Signed d a k out
  conclude d a k out h sig p₁ p₂ p₃ p₄ e = from_parts (sign-SignParts h k sig p₄)
    where
      from_parts : SignParts h k sig → Signed d a k out
      from_parts ps = record {
        hash = h;
        r = ps.r;
        s = ps.s;
        v = ps.v;
        v_small = ps.v_small;
        domain_checked = p₁;
        message_checked = p₂;
        hashed = p₃;
        signed_by = p₄ ∙ ap ok ps.spelled;
        result = cc (e, ps.split);
      }

  sign_authorization-Signed :
      (d : Domain) (a : Authorization) (k : PrivateKey) (out : SignedAuthorization)
      → sign_authorization eth d a (some k) ≡ ok out
      → Signed d a k out
  unfolding sign_authorization
  sign_authorization-Signed d a k out e =
      let (_, p₁, e₁) = >>=-eq-ok (validate_domain d) _ e in
      let (_, p₂, e₂) = >>=-eq-ok (validate_authorization a) _ e₁ in
      let (h, p₃, e₃) = >>=-eq-ok (typed_data_hash eth d a) _ e₂ in
      let (sig, p₄, e₄) = >>=-eq-ok (eth.sign h k) _ e₃ in conclude d a k out h sig p₁ p₂ p₃ p₄ e₄

  -- What is recovered from a result of `SignAuthorization`.
  recover-Signed :
      (d : Domain) (a : Authorization) (k : PrivateKey) (out : SignedAuthorization)
      → Signed d a k out
      → recover_authorization_signer eth (some out) ≡ ok (eth.pubkey_to_address k.public_key)
  unfolding recover_authorization_signer recover_signature
  recover-Signed d a k out w = rw (
    w.result,
    w.hashed,
    recovery_byte-add w.v w.v_small,
    laws.sig_to_pub-sign w.hash k (w.r ++ w.s ++ w.v ∷ []) w.signed_by,
  )

  verify-Signed :
      (d : Domain) (a : Authorization) (k : PrivateKey) (out : SignedAuthorization)
      → Signed d a k out
      → verify_signed_authorization eth (some out)
        ≡ compare_signer eth (eth.pubkey_to_address k.public_key) (required_signer a.kind a)
  unfolding verify_signed_authorization
  verify-Signed d a k out w =
      rw (recover-Signed d a k out w, w.result, signer_address-valid a w.message_checked)

  compare_signer_iff : (x y : Address) → (compare_signer eth x y ≡ ok tt) ↔ (x ≡ y)
  unfolding compare_signer
  compare_signer_iff x y = elim (Bool-cases (bytes_eq x y)) [
    | inl e ↦ ((λ _. bytes_eq_sound x y e), λ _. rw e)
    | inr e ↦ (
      (λ h. absurd (refused e h)),
      λ h. let same : bytes_eq x y ≡ true = rw h (bytes_eq_refl y) in cc (e, same),
    )
  ]
    where
      refused : bytes_eq x y ≡ false → compare_signer eth x y ≡ ok tt → ⊥
      refused e h = ground arith

  -- If `SignAuthorization` returns, the domain and the authorization come back as they were given,
  -- both have passed their checks, the signature's v is 27 or 28, the address that is recovered from
  -- the result is the one of the key, and the result verifies exactly if that is the address that the
  -- authorization names as its signer.
  pub sign-recover :
      (d : Domain) (a : Authorization) (k : PrivateKey) (out : SignedAuthorization)
      → sign_authorization eth d a (some k) ≡ ok out
      → (out.domain ≡ d)
        × (out.authorization ≡ a)
        × (validate_domain d ≡ ok tt)
        × (validate_authorization a ≡ ok tt)
        × ((sig : Signature) × (out.signature ≡ some sig) × ((sig.v ≡ 27) ⊎ (sig.v ≡ 28)))
        × (recover_authorization_signer eth (some out) ≡ ok (eth.pubkey_to_address k.public_key))
        × ((verify_signed_authorization eth (some out) ≡ ok tt)
            ↔ (eth.pubkey_to_address k.public_key ≡ required_signer a.kind a))
  sign-recover d a k out e =
      let w = sign_authorization-Signed d a k out e in
      (
        ap (λ (o : SignedAuthorization). o.domain) w.result,
        ap (λ (o : SignedAuthorization). o.authorization) w.result,
        w.domain_checked,
        w.message_checked,
        (
          record { v = w.v + 27; r = w.r; s = w.s },
          ap (λ (o : SignedAuthorization). o.signature) w.result,
          v_cases w.v w.v_small,
        ),
        recover-Signed d a k out w,
        rw (verify-Signed d a k out w) (compare_signer_iff _ _),
      )
