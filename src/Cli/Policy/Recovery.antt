-- ===== src/Cli/Policy/Recovery.antt =====
-- What `resolveSignatureVForBroadcast` leaves of a signature.
use eip.Prelude.{
  ap, ℕ, ◌+◌, ◌%◌, ◌≡◌, ◌⊎◌, ◌↔◌, refl, inl, inr, Bool, true, false, ◌||◌, not, List, some, arith,
  ◌==◌, if◌then◌else◌,
}
use eip.Outcome.{Error, Outcome, Checked, ok, err, panic}
use eip.Types.{Domain, Authorization, Signature}
use eip.Ethereum.{Ethereum}
use eip.Signing.{recovery_byte, recover_signature}
use eip.Cli.Policy.{
  SignatureVOptions, Input, Message, Resolved, can_prompt, prompt_normalize_signature_v,
  after_prompt, resolve_low, resolve_signature_v_for_broadcast,
}

-- Someone asked for the signature to be kept: by the flag, or in the answer to the prompt.
abbrev pub AsksToKeep : SignatureVOptions → Input → Type 0
AsksToKeep opts input = (opts.keep_v ≡ true) ⊎ (prompt_normalize_signature_v input ≡ ok false)

-- What may be left of a signature: the same r, s and recovery id; unchanged after a failure; after a
-- success, v is 27 or 28 unless someone asked to keep it.
abbrev pub Keeps : Signature → SignatureVOptions → Input → Signature → Checked → Type 0
Keeps sig opts input new result =
    (new.r ≡ sig.r)
    × (new.s ≡ sig.s)
    × (recovery_byte new.v ≡ recovery_byte sig.v)
    × ((result ≡ ok tt) ⊎ (new ≡ sig))
    × (result ≡ ok tt → ((new.v ≡ 27) ⊎ (new.v ≡ 28)) ⊎ AsksToKeep opts input)

-- The same of all that the resolution returns: a signature is there still.
pub record KeepsResolved (sig : Signature) (opts : SignatureVOptions) (input : Input)
    (res : Resolved) : Type 0 where
  pub new : Signature
  pub is_left : res.0 ≡ some new
  pub keeps : Keeps sig opts input new res.2

module _ (sig : Signature) (opts : SignatureVOptions) (input : Input) where
  -- The signature with v raised by 27.
  Keeps-raised :
      (sig.v ≡ 0) ⊎ (sig.v ≡ 1)
      → Keeps sig opts input (record sig { v = (sig.v + 27) % 256 }) (ok tt)
  unfolding recovery_byte
  Keeps-raised low = (refl, refl, ground arith, inl refl, λ e. inl (ground arith))

  Keeps-same :
      (result : Checked)
      → (result ≡ ok tt → ((sig.v ≡ 27) ⊎ (sig.v ≡ 28)) ⊎ AsksToKeep opts input)
      → Keeps sig opts input sig result
  Keeps-same result asked = (refl, refl, refl, inr refl, asked)

  Keeps-failed : (e : Error) → Keeps sig opts input sig (err e)
  Keeps-failed e = Keeps-same (err e) (λ no. cc)

  either : (m n : ℕ) → ((sig.v == m || sig.v == n) ≡ true) → (sig.v ≡ m) ⊎ (sig.v ≡ n)
  either m n h = ground arith

  left :
      (new : Signature) (printed : List Message) (result : Checked)
      → Keeps sig opts input new result
      → KeepsResolved sig opts input (some new, printed, result)
  left new printed result keeps = record { new = new; is_left = refl; keeps = keeps }

  raised :
      (printed : List Message)
      → (sig.v ≡ 0) ⊎ (sig.v ≡ 1)
      → KeepsResolved sig opts input (some (record sig { v = (sig.v + 27) % 256 }), printed, ok tt)
  raised printed low =
      left (record sig { v = (sig.v + 27) % 256 }) printed (ok tt) (Keeps-raised low)

  same :
      (printed : List Message)
      → ((sig.v ≡ 27) ⊎ (sig.v ≡ 28)) ⊎ AsksToKeep opts input
      → KeepsResolved sig opts input (some sig, printed, ok tt)
  same printed asked = left sig printed (ok tt) (Keeps-same (ok tt) (λ _. asked))

  failed :
      (printed : List Message) (e : Error) → KeepsResolved sig opts input (some sig, printed, err e)
  failed printed e = left sig printed (err e) (Keeps-failed e)

  KeepsResolved-if :
      (c : Bool) (a b : Resolved)
      → (c ≡ true → KeepsResolved sig opts input a)
      → (c ≡ false → KeepsResolved sig opts input b)
      → KeepsResolved sig opts input (if c then a else b)
  KeepsResolved-if true a b f g = f refl
  KeepsResolved-if false a b f g = g refl

  after_prompt-Keeps :
      (answer : Outcome Bool) (printed : List Message)
      → (sig.v ≡ 0) ⊎ (sig.v ≡ 1)
      → prompt_normalize_signature_v input ≡ answer
      → KeepsResolved sig opts input (after_prompt sig answer printed)
  unfolding after_prompt
  after_prompt-Keeps (ok true) printed low e = raised printed low
  after_prompt-Keeps (ok false) printed low e = same _ (inr (inr e))
  after_prompt-Keeps (err reason) printed low e = failed printed reason
  after_prompt-Keeps panic printed low e = left sig printed panic (Keeps-same panic (λ no. cc))

  resolve_low-Keeps :
      (sig.v ≡ 0) ⊎ (sig.v ≡ 1) → KeepsResolved sig opts input (resolve_low sig opts input)
  unfolding resolve_low
  resolve_low-Keeps low =
      KeepsResolved-if opts.keep_v _ _ (λ keep. same _ (inr (inl keep)))
        λ _.
          KeepsResolved-if (opts.normalize_v || opts.yes_all) _ _ (λ _. raised _ low)
            λ _.
              KeepsResolved-if (not (can_prompt input)) _ _ (λ _. failed _ _)
                λ _. after_prompt-Keeps _ _ low refl

  resolve-Keeps :
      KeepsResolved sig opts input (resolve_signature_v_for_broadcast (some sig) opts input)
  unfolding resolve_signature_v_for_broadcast
  resolve-Keeps =
      KeepsResolved-if (sig.v == 27 || sig.v == 28) _ _ (λ fine. same _ (inl (either 27 28 fine)))
        λ _.
          KeepsResolved-if (sig.v == 0 || sig.v == 1) _ _
            (λ low. resolve_low-Keeps (either 0 1 low)) λ _. failed _ _

-- Whatever the flags, the terminal and the answer, a signature stays there and keeps r, s and the
-- recovery id, so that it recovers the same signer for every domain and authorization; a failure
-- leaves it as it was; after a success v is 27 or 28 unless the flag or the answer asked to keep it.
pub resolve-recover :
    (eth : Ethereum) (d : Domain) (a : Authorization)
    → (sig : Signature) (opts : SignatureVOptions) (input : Input)
    → (new : Signature) × (printed : List Message) × (result : Checked)
      × (resolve_signature_v_for_broadcast (some sig) opts input ≡ (some new, printed, result))
      × (recover_signature eth d a new ≡ recover_signature eth d a sig)
      × Keeps sig opts input new result
unfolding recover_signature
resolve-recover eth d a sig opts input =
    let res = resolve_signature_v_for_broadcast (some sig) opts input in
    let kept = resolve-Keeps sig opts input in
    (
      kept.new,
      res.1,
      res.2,
      ap (λ o. (o, res.1, res.2)) kept.is_left,
      same_signer kept.new res.2 kept.keeps,
      kept.keeps,
    )
  where
    same_signer :
        (new : Signature) (result : Checked)
        → Keeps sig opts input new result
        → recover_signature eth d a new ≡ recover_signature eth d a sig
    same_signer new result (r, s, v, kept, asked) = rw (v, r, s)

-- With no terminal to ask at, a broadcast goes on exactly where v is 27 or 28, or v is 0 or 1 and a
-- flag says what to do with it.
pub unattended_iff :
    (sig : Signature) (opts : SignatureVOptions) (input : Input)
    → input.is_terminal ≡ false
    → ((resolve_signature_v_for_broadcast (some sig) opts input).2 ≡ ok tt) ↔ (
        ((sig.v ≡ 27) ⊎ (sig.v ≡ 28))
        ⊎ (((sig.v ≡ 0) ⊎ (sig.v ≡ 1))
            × ((opts.keep_v ≡ true) ⊎ (opts.normalize_v ≡ true) ⊎ (opts.yes_all ≡ true))))
unfolding resolve_signature_v_for_broadcast resolve_low can_prompt
unattended_iff sig opts input h = ((λ e. ground arith), λ e. ground arith)
