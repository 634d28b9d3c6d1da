-- ===== src/Signing/Normalize.antt =====
-- `NormalizeSignatureVForSolidity` against recovery.
use eip.Prelude.{◌≡◌, ◌≢◌, ◌↔◌, ◌⊎◌, some, arith, not, Bool, ◌==◌}
use eip.Outcome.{Error, ok, err, panic}
use eip.Types.{Domain, Authorization, Signature, normalize_signature_v}
use eip.Ethereum.{Ethereum}
use eip.Signing.{recovery_byte, recover_signature}

module _ (sig new : Signature) (changed : Bool)
    (done : normalize_signature_v (some sig) ≡ (some new, ok changed)) where
  new_v : (new.v ≡ 27) ⊎ (new.v ≡ 28)
  unfolding normalize_signature_v
  new_v = ground arith

  r_kept : new.r ≡ sig.r
  unfolding normalize_signature_v
  r_kept = ground arith

  s_kept : new.s ≡ sig.s
  unfolding normalize_signature_v
  s_kept = ground arith

  same_byte : recovery_byte new.v ≡ recovery_byte sig.v
  unfolding normalize_signature_v recovery_byte
  same_byte = ground arith

  changed-eq : changed ≡ not (new.v == sig.v)
  unfolding normalize_signature_v
  changed-eq = ground arith

  recover-new :
      (eth : Ethereum) (d : Domain) (a : Authorization)
      → recover_signature eth d a new ≡ recover_signature eth d a sig
  unfolding recover_signature
  recover-new eth d a = rw (same_byte, r_kept, s_kept)

-- When `NormalizeSignatureVForSolidity` succeeds, the signature that it leaves has v 27 or 28 and the
-- r and s that it had, the result says whether v was changed, and the signer that is recovered from
-- it, for any domain and authorization, is the one of the signature before.
pub normalize-recover :
    (eth : Ethereum) (d : Domain) (a : Authorization) (sig new : Signature) (changed : Bool)
    → normalize_signature_v (some sig) ≡ (some new, ok changed)
    → ((new.v ≡ 27) ⊎ (new.v ≡ 28))
      × (new.r ≡ sig.r)
      × (new.s ≡ sig.s)
      × (changed ≡ not (new.v == sig.v))
      × (recover_signature eth d a new ≡ recover_signature eth d a sig)
normalize-recover eth d a sig new changed done = (
  new_v sig new changed done,
  r_kept sig new changed done,
  s_kept sig new changed done,
  changed-eq sig new changed done,
  recover-new sig new changed done eth d a,
)

-- `NormalizeSignatureVForSolidity` returns an error on a signature exactly where recovery refuses its
-- v, with the same error, and exactly there it returns that error with the signature as it was; it
-- does not panic.
pub normalize_fails_iff :
    (sig : Signature) (e : Error)
    → (((normalize_signature_v (some sig)).1 ≡ err e) ↔ (recovery_byte sig.v ≡ err e))
      × ((normalize_signature_v (some sig) ≡ (some sig, err e)) ↔ (recovery_byte sig.v ≡ err e))
      × ((normalize_signature_v (some sig)).1 ≢ panic)
unfolding normalize_signature_v recovery_byte
normalize_fails_iff sig e = (
  ((λ h. ground arith), λ h. ground arith),
  ((λ h. ground arith), λ h. ground arith),
  λ h. ground arith,
)
