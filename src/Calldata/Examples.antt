-- ===== src/Calldata/Examples.antt =====
-- The calldata of a payment with the sample ABI functions.
use eip.Prelude.{◌≡◌, refl, some, [], ◌∷◌, arith}
use eip.Outcome.{ok, err, short_calldata, ◌>>=◌}
use eip.Prelude.{Bytes, replicate, ◌≢◌}
use eip.Outcome.{panic}
use eip.Types.{SignedAuthorization}
use eip.Calldata.Canonical.{decode_stable}
use eip.Ethereum.Sample.{sample}
use eip.Ethereum.SampleLaws.{sample_laws}
use eip.Calldata.{zero_domain, encode_execute_calldata, decode_execute_calldata}
use eip.Calldata.RoundTrip.{carried, decode-encode}
use eip.Fixtures.{usd_domain, payment, payment_signature, signed_payment}

run_short : decode_execute_calldata sample (1 ∷ 2 ∷ 3 ∷ []) ≡ err short_calldata
unfolding decode_execute_calldata
run_short = refl

decode-encode_example :
    (encode_execute_calldata sample signed_payment >>= decode_execute_calldata sample)
    ≡ ok (record {
      authorization = carried payment.kind payment;
      domain = zero_domain;
      signature = some payment_signature;
    })
decode-encode_example =
    decode-encode sample sample_laws usd_domain payment payment_signature tt (omega arith)
      (omega arith)

-- A call of a cancellation in the sample's encoding.
abbrev cancel_calldata : Bytes
cancel_calldata = 0 ∷ 0 ∷ 0 ∷ 19 ∷ replicate 160 1

decode_stable_example :
    (decode_execute_calldata sample cancel_calldata ≢ panic)
    × ((signed : SignedAuthorization)
        → decode_execute_calldata sample cancel_calldata ≡ ok signed
        → (encode_execute_calldata sample signed >>= decode_execute_calldata sample) ≡ ok signed)
decode_stable_example = decode_stable sample sample_laws cancel_calldata
