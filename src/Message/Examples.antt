-- ===== src/Message/Examples.antt =====
-- Documents with the sample functions.
use eip.Prelude.{◌≡◌, ◌≢◌, Bytes, codes}
use eip.Outcome.{ok, panic}
use eip.Types.{SignedAuthorization}
use eip.Ethereum.Sample.{sample}
use eip.Ethereum.SampleLaws.{sample_laws}
use eip.Message.{parse_message_json}
use eip.Message.Total.{SignedReads, parse_message_total}

abbrev cancellation : Bytes
cancellation =
    codes
      "{\"authorizationType\":\"cancel\",\"domain\":{\"chainId\":\"0x1\",\"verifyingContract\":\"0x0101010101010101010101010101010101010101\"},\"message\":{\"nonce\":\"0x05\",\"from\":\"0x0202020202020202020202020202020202020202\"}}"

parse_message_total_example :
    (parse_message_json sample cancellation ≢ panic)
    × ((signed : SignedAuthorization)
        → parse_message_json sample cancellation ≡ ok signed
        → SignedReads signed)
parse_message_total_example = parse_message_total sample sample_laws cancellation
