-- ===== src/Eip712/Examples.antt =====
-- Two payments of different amounts under the sample hash, which keeps 32 bytes only and so collides.
use eip.Prelude.{◌≡◌, ◌⊎◌, ◌↔◌, refl, some, ◌∷◌, arith, codes, take, bytes_eq, pos}
use eip.Outcome.{ok}
use eip.Types.{Authorization, Hash, validate_domain, validate_authorization}
use eip.Types.Checks.{ValidDomain, ValidFor, validate_domain_iff, validate_authorization_iff}
use eip.Ethereum.Sample.{sample}
use eip.Ethereum.SampleLaws.{sample_laws}
use eip.Eip712.{typed_data_hash, domain_separator, authorization_struct_hash, type_hash}
use eip.Eip712.Fields.{Collision, SameMessage}
use eip.Eip712.Binding.{typed_data_hash-binds}
use eip.Fixtures.{usd_domain, payment}

abbrev larger_payment : Authorization
larger_payment = record payment { value = some (pos 2000000) }

-- The hash of a payment under the sample.
abbrev payment_hash : Hash
payment_hash = take 32 (0x19 ∷ 0x01 ∷ codes "EIP712Domain(string name,string ")

run_payment : typed_data_hash sample usd_domain payment ≡ ok payment_hash
unfolding typed_data_hash sample validate_domain validate_authorization domain_separator
    authorization_struct_hash type_hash bytes_eq
run_payment = refl

run_larger : typed_data_hash sample usd_domain larger_payment ≡ ok payment_hash
unfolding typed_data_hash sample validate_domain validate_authorization domain_separator
    authorization_struct_hash type_hash bytes_eq
run_larger = refl

typed_data_hash-binds_example :
    ((usd_domain ≡ usd_domain)
      × (payment.kind ≡ larger_payment.kind)
      × SameMessage payment.kind payment larger_payment)
    ⊎ Collision sample
typed_data_hash-binds_example =
    typed_data_hash-binds sample sample_laws usd_domain usd_domain payment larger_payment
      payment_hash (omega arith) (omega arith) (omega arith) (omega arith) run_payment run_larger

validate_domain_iff_example : (validate_domain usd_domain ≡ ok tt) ↔ ValidDomain usd_domain
validate_domain_iff_example = validate_domain_iff usd_domain

validate_authorization_iff_example :
    (validate_authorization payment ≡ ok tt) ↔ ValidFor payment.kind payment
validate_authorization_iff_example = validate_authorization_iff payment
