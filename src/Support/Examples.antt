-- ===== src/Support/Examples.antt =====
-- The report on a token that has it all, but for the cancel type hash.
use eip.Prelude.{codes, replicate, ◌++◌, ◌↔◌, ◌≡◌, [], ◌∷◌, Bytes, take, bytes_eq, if◌then◌else◌}
use eip.Outcome.{ok}
use eip.Ethereum.Sample.{sample, sample_hash}
use eip.Ethereum.SampleLaws.{sample_laws}
use eip.Eip712.{transfer_type, receive_type}
use eip.Support.{ContractCaller, SupportReport, check_eip3009_support}
use eip.Support.Check.{Reports, check_eip3009_support-Reports}
use eip.Ethereum.{string_value, uint8_value}
use eip.Abi.{erc20_metadata_abi}
use eip.Support.{token_decimals, token_symbol, token_name, token_version}
use eip.Support.Views.{Reads}
use eip.Support.Metadata.{token_metadata_iff}
use eip.Fixtures.{recipient}

-- The sample's selectors hold the length of the method's name.
abbrev token_view : Bytes → Bytes
token_view input =
    if bytes_eq (take 4 input) (0 ∷ 0 ∷ 0 ∷ 36 ∷ [])
    then sample_hash transfer_type
    else if bytes_eq (take 4 input) (0 ∷ 0 ∷ 0 ∷ 35 ∷ [])
    then sample_hash receive_type
    else sample_hash []

abbrev token_caller : ContractCaller
token_caller m = ok (token_view m.input)

check_eip3009_support-Reports_example :
    (report : SupportReport) × (check_eip3009_support sample token_caller recipient ≡ ok report)
    × Reports sample token_caller recipient report
check_eip3009_support-Reports_example =
    check_eip3009_support-Reports sample sample_laws token_caller (λ m no. cc) recipient

-- Every view of this one returns a word with the number six.
abbrev six_caller : ContractCaller
six_caller m = ok (replicate 31 0 ++ 6 ∷ [])

abbrev six_text : Bytes
six_text = replicate 31 0 ++ 6 ∷ []

token_metadata_iff_example :
    ((token_decimals sample six_caller recipient ≡ ok 6)
      ↔ Reads sample six_caller erc20_metadata_abi recipient (codes "decimals") [] (uint8_value 6))
    × ((token_symbol sample six_caller recipient ≡ ok six_text)
        ↔ Reads sample six_caller erc20_metadata_abi recipient
            (codes "symbol")
            []
            (string_value six_text))
    × ((token_name sample six_caller recipient ≡ ok six_text)
        ↔ Reads sample six_caller erc20_metadata_abi recipient
            (codes "name")
            []
            (string_value six_text))
    × ((token_version sample six_caller recipient ≡ ok six_text)
        ↔ Reads sample six_caller erc20_metadata_abi recipient
            (codes "version")
            []
            (string_value six_text))
token_metadata_iff_example =
    token_metadata_iff sample sample_laws six_caller (λ m no. cc) recipient 6 six_text
