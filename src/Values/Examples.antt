-- ===== src/Values/Examples.antt =====
-- A flag's value with the sample functions.
use eip.Prelude.{◌≡◌, Bytes, codes, false, arith}
use eip.Outcome.{◌>>=◌}
use eip.Ethereum.Sample.{sample}
use eip.Go.Strings.{trim_space}
use eip.Raw.{address_of, hash_of, big_of, uint64_of}
use eip.Values.{parse_address_value, parse_hash_value, parse_big_int_value, parse_uint64_value}
use eip.Values.Plain.{parse_value-plain}

abbrev quoted_number : Bytes
quoted_number = codes " 0x1\"f\\ "

parse_value-plain_example :
    (parse_address_value (λ r. false) sample quoted_number
      ≡ address_of sample (trim_space quoted_number))
    × (parse_hash_value (λ r. false) sample quoted_number
        ≡ hash_of sample (trim_space quoted_number))
    × (parse_big_int_value (λ r. false) quoted_number ≡ big_of (trim_space quoted_number))
    × (parse_uint64_value (λ r. false) quoted_number
        ≡ (big_of (trim_space quoted_number) >>= uint64_of))
parse_value-plain_example = parse_value-plain (λ r. false) sample quoted_number (omega arith)
