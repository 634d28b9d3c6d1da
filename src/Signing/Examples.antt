-- ===== src/Signing/Examples.antt =====
-- A payment that is signed, verified and normalised with the sample key.
use eip.Prelude.{◌≢◌, ◌≡◌, ◌↔◌, ◌⊎◌, refl, some, true, not, ◌==◌, bytes_eq}
use eip.Outcome.{ok, err, invalid_v}
use eip.Prelude.{arith}
use eip.Signing.Total.{sign_total}
use eip.Types.{
  SignedAuthorization, Signature, validate_domain, validate_authorization, normalize_signature_v,
}
use eip.Types.Checks.{required_signer}
use eip.Ethereum.Sample.{sample}
use eip.Ethereum.SampleLaws.{sample_laws}
use eip.Eip712.{typed_data_hash, domain_separator, authorization_struct_hash, type_hash}
use eip.Signing.{
  recovery_byte, split_signature, sign_authorization, recover_signature,
  recover_authorization_signer, verify_signed_authorization,
}
use eip.Outcome.{panic}
use eip.Signing.RoundTrip.{sign-recover}
use eip.Signing.Normalize.{normalize-recover, normalize_fails_iff}
use eip.Fixtures.{key, usd_domain, payment, payment_signature, signed_payment}

run_sign : sign_authorization sample usd_domain payment (some key) ≡ ok signed_payment
unfolding sign_authorization sample validate_domain validate_authorization typed_data_hash
    domain_separator authorization_struct_hash type_hash split_signature bytes_eq
run_sign = refl

sign-recover_example :
    (signed_payment.domain ≡ usd_domain)
    × (signed_payment.authorization ≡ payment)
    × (validate_domain usd_domain ≡ ok tt)
    × (validate_authorization payment ≡ ok tt)
    × ((sig : Signature) × (signed_payment.signature ≡ some sig) × ((sig.v ≡ 27) ⊎ (sig.v ≡ 28)))
    × (recover_authorization_signer sample (some signed_payment)
        ≡ ok (sample.pubkey_to_address key.public_key))
    × ((verify_signed_authorization sample (some signed_payment) ≡ ok tt)
        ↔ (sample.pubkey_to_address key.public_key ≡ required_signer payment.kind payment))
sign-recover_example =
    sign-recover sample sample_laws usd_domain payment key signed_payment run_sign

-- The signature as some other tools write it.
abbrev raw_signature : Signature
raw_signature = record payment_signature { v = 0 }

run_normalize : normalize_signature_v (some raw_signature) ≡ (some payment_signature, ok true)
unfolding normalize_signature_v
run_normalize = refl

normalize-recover_example :
    ((payment_signature.v ≡ 27) ⊎ (payment_signature.v ≡ 28))
    × (payment_signature.r ≡ raw_signature.r)
    × (payment_signature.s ≡ raw_signature.s)
    × (true ≡ not (payment_signature.v == raw_signature.v))
    × (recover_signature sample usd_domain payment payment_signature
        ≡ recover_signature sample usd_domain payment raw_signature)
normalize-recover_example =
    normalize-recover sample usd_domain payment raw_signature payment_signature true run_normalize

abbrev bad_signature : Signature
bad_signature = record payment_signature { v = 29 }

normalize_fails_iff_example :
    (((normalize_signature_v (some bad_signature)).1 ≡ err (invalid_v 29))
      ↔ (recovery_byte 29 ≡ err (invalid_v 29)))
    × ((normalize_signature_v (some bad_signature) ≡ (some bad_signature, err (invalid_v 29)))
        ↔ (recovery_byte 29 ≡ err (invalid_v 29)))
    × ((normalize_signature_v (some bad_signature)).1 ≢ panic)
normalize_fails_iff_example = normalize_fails_iff bad_signature (invalid_v 29)

sign_total_example :
    (out : SignedAuthorization) × (sign_authorization sample usd_domain payment (some key) ≡ ok out)
unfolding sample validate_domain validate_authorization bytes_eq
sign_total_example =
    sign_total sample sample_laws usd_domain payment key (λ h n. (_, refl)) refl refl (omega arith)
      (omega arith)
