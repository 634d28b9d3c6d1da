-- ===== src/Objects/Examples.antt =====
-- A signed payment is printed and read back with the sample functions.
use eip.Prelude.{◌≡◌, refl, some, none, true, arith, bytes_eq}
use eip.Outcome.{ok, ◌>>=◌}
use eip.Types.{validate_domain, validate_authorization}
use eip.Ethereum.Sample.{sample}
use eip.Ethereum.SampleLaws.{sample_laws}
use eip.Go.Json.Encode.{object, compact, indented, encode}
use eip.Go.Strings.{trim_space}
use eip.Signing.{verify_signed_authorization}
use eip.Message.{parse_message_json}
use eip.Objects.{signed_authorization_object, typed_data_object}
use eip.Objects.RoundTrip.{SignedPrints, signed_read, parse-signed_object, parse-typed_data_object}
use eip.Objects.Verdict.{verify-parse}
use eip.Fixtures.{signed_payment}

payment-SignedPrints : SignedPrints signed_payment
payment-SignedPrints = record {
  kind-IsKnown = tt;
  domain-prints = record {
    name-IsAscii = omega arith;
    version-IsAscii = omega arith;
    contract-IsArray = (refl, omega arith);
  };
  message-prints = record {
    from-IsArray = (refl, omega arith);
    to-IsArray = (refl, omega arith);
    valid_after-lt = omega arith;
    valid_before-lt = omega arith;
    nonce-IsArray = (refl, omega arith);
  };
  signature-prints = record {
    v-lt = omega arith;
    r-IsArray = (refl, omega arith);
    s-IsArray = (refl, omega arith);
  };
}

parse-signed_object_example :
    (signed_authorization_object sample signed_payment (some true) >>= λ out.
    parse_message_json sample (encode indented (object out)))
    ≡ ok (signed_read signed_payment)
parse-signed_object_example =
    parse-signed_object sample sample_laws indented signed_payment (some true) payment-SignedPrints

parse-typed_data_object_example :
    (typed_data_object sample signed_payment >>= λ out.
    parse_message_json sample (encode compact (object out)))
    ≡ ok (signed_read (record signed_payment { signature = none }))
parse-typed_data_object_example =
    parse-typed_data_object sample sample_laws compact signed_payment tt
      payment-SignedPrints.domain-prints payment-SignedPrints.message-prints

trimmed_name : trim_space signed_payment.domain.name ≡ signed_payment.domain.name
unfolding trim_space
trimmed_name = refl

trimmed_version : trim_space signed_payment.domain.version ≡ signed_payment.domain.version
unfolding trim_space
trimmed_version = refl

domain_checked : validate_domain signed_payment.domain ≡ ok tt
unfolding validate_domain bytes_eq
domain_checked = refl

message_checked : validate_authorization signed_payment.authorization ≡ ok tt
unfolding validate_authorization bytes_eq
message_checked = refl

verify-parse_example :
    (signed_authorization_object sample signed_payment (some true)
      >>= (λ out. parse_message_json sample (encode indented (object out)))
      >>= (λ read. verify_signed_authorization sample (some read)))
    ≡ verify_signed_authorization sample (some signed_payment)
verify-parse_example =
    verify-parse sample sample_laws indented signed_payment (some true) payment-SignedPrints
      trimmed_name trimmed_version domain_checked message_checked
