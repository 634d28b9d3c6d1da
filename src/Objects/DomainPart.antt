-- ===== src/Objects/DomainPart.antt =====
-- The objects of the parts of an authorization are read back.
use eip.Prelude.{ℕ, ◌≡◌, refl, [], none, some, Option, arith, codes, All, ℤ, pos, bytes_eq}
use eip.Outcome.{ok}
use eip.Types.{Domain}
use eip.Ethereum.{Ethereum}
use eip.Ethereum.Laws.{EthereumLaws, IsArray}
use eip.Go.Strings.{trim_space}
use eip.Go.Big.{digits, to_string}
use eip.Go.Json.Text.{IsAscii}
use eip.Go.Json.Decode.{lookup}
use eip.Go.Json.Encode.{text, object, Fields, end, field, Layout, before, insert, sort, print}
use eip.Go.Json.Spacing.{FitsFields}
use eip.Go.Json.ReadBack.{read_back, unmarshal-print}
use eip.Raw.{get}
use eip.Raw.RoundTrip.{
  parse_optional_string-quote, parse_big_int-quote, parse_address-quote, to_string-IsAscii,
  address_hex-IsAscii,
}
use eip.Message.{domain_of, parse_domain}
use eip.Objects.{integer_text, domain_object}

-- A nil integer is printed as 0.
abbrev pub or_zero : Option ℤ → ℤ
or_zero none = pos 0
or_zero (some x) = x

pub integer_text-or_zero : (x : Option ℤ) → integer_text x ≡ to_string (or_zero x)
integer_text-or_zero none = unfold to_string digits eip.Go.Big.digits_fuel in refl
integer_text-or_zero (some x) = refl

-- A domain that can be printed, and what is read back of it.
pub record DomainPrints (d : Domain) : Type 0 where
  pub name-IsAscii : All IsAscii d.name
  pub version-IsAscii : All IsAscii d.version
  pub contract-IsArray : IsArray 20 d.verifying_contract

abbrev pub domain_read : Domain → Domain
domain_read d = record {
  name = trim_space d.name;
  version = trim_space d.version;
  chain_id = some (or_zero d.chain_id);
  verifying_contract = d.verifying_contract;
}

module _ (eth : Ethereum) (laws : EthereumLaws eth) where
  -- The keys of a domain in the encoder's order.
  abbrev pub domain_sorted : Domain → Fields
  domain_sorted d = field (codes "chainId") (text (integer_text d.chain_id)) (
      field (codes "name") (text d.name) (
        field (codes "verifyingContract") (text (eth.address_hex d.verifying_contract))
          (field (codes "version") (text d.version) end)))

  pub domain_object-sorted : (d : Domain) → sort (domain_object eth d) ≡ object (domain_sorted d)
  unfolding sort insert before domain_object
  domain_object-sorted d = refl

  pub domain_sorted-FitsFields :
      (r : ℕ) (d : Domain) → DomainPrints d → FitsFields r (domain_sorted d)
  unfolding FitsFields
  domain_sorted-FitsFields r d h =
      let chain : All IsAscii (integer_text d.chain_id) =
        rw (integer_text-or_zero d.chain_id) (to_string-IsAscii (or_zero d.chain_id)) in
      (
        omega arith,
        chain,
        (
          omega arith,
          h.name-IsAscii,
          (
            omega arith,
            address_hex-IsAscii eth laws d.verifying_contract h.contract-IsArray,
            (omega arith, h.version-IsAscii, tt),
          ),
        ),
      )

  domain_of-read :
      (l : Layout) (n : ℕ) (d : Domain)
      → DomainPrints d
      → domain_of eth (read_back l n (domain_sorted d) []) ≡ ok (domain_read d)
  unfolding domain_of get lookup bytes_eq print
  domain_of-read l n d h = rw (
    parse_optional_string-quote d.name h.name-IsAscii,
    parse_optional_string-quote d.version h.version-IsAscii,
    integer_text-or_zero d.chain_id,
    parse_big_int-quote (or_zero d.chain_id),
    parse_address-quote eth laws d.verifying_contract h.contract-IsArray,
  )

  pub parse_domain-print :
      (l : Layout) (n : ℕ) (d : Domain)
      → DomainPrints d
      → parse_domain eth (print l n (sort (domain_object eth d))) ≡ ok (domain_read d)
  unfolding parse_domain print domain_of
  parse_domain-print l n d h =
      rw
        (
          domain_object-sorted d,
          unmarshal-print l 0 n (domain_sorted d) (domain_sorted-FitsFields 0 d h) (omega arith),
        )
        (domain_of-read l n d h)
