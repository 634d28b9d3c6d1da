-- ===== src/Raw/Total.antt =====
-- The readers of one value return or give an error, on every text.
use eip.Prelude.{
  ℕ, ◌^◌, ◌<◌, ◌≡◌, false, inl, inr, [], ◌∷◌, Option, none, some, arith, Bytes, codes, ltb,
  Bool-cases, bytes_eq, length, All, ℤ, pos, negsuc, ◌==◌, drop,
}
use eip.Outcome.{Error, ok, Answers, Answers-bind, Answers-reject}
use eip.Amount.{number_or}
use eip.Ethereum.{Ethereum}
use eip.Ethereum.Laws.{EthereumLaws}
use eip.Go.Strings.{trim_space, has_prefix}
use eip.Go.Big.{set_string, is_uint64, uint64}
use eip.Go.Hex.Range.{decode_string-Answers}
use eip.Go.Json.Decode.{
  StringReader, inside, ended, string_of, unmarshal_string, Reader, Phase, members_of,
  unmarshal_object, run, read_step,
}
use eip.Raw.{
  text_of, parse_trimmed, parse_string_like, parse_optional_string, digits_of, big_of,
  parse_big_int, uint64_of, parse_uint64, decode_hex, address_of, parse_address, hash_of,
  parse_hash,
}

abbrev pub Any {ℓ} : {A : Type ℓ} → A → Type 0
Any a = Unit

string_of-Answers : (s : Bytes) (o : Option StringReader) → Answers Any (string_of s o)
unfolding string_of
string_of-Answers s none = tt
string_of-Answers s (some (inside st read)) = tt
string_of-Answers s (some (ended t)) = tt

members_of-Answers : (s : Bytes) (o : Option Reader) → Answers Any (members_of s o)
unfolding members_of
members_of-Answers s none = tt
members_of-Answers s (some (Phase.closed, members)) = tt
members_of-Answers s (some (_, members)) = tt

pub unmarshal_object-Answers : (s : Bytes) → Answers Any (unmarshal_object s)
unfolding unmarshal_object
unmarshal_object-Answers s = members_of-Answers s (run read_step (Phase.start, []) s)

text_of-Answers : (c : ℕ) (s : Bytes) → Answers Any (text_of (c ∷ s))
unfolding text_of
text_of-Answers c s = elim (Bool-cases (c == b'"')) [
  | inl e ↦ rw e (
      Answers-bind Any Any (unmarshal_string s) (λ value. ok (trim_space value))
        (unfold unmarshal_string in string_of-Answers s _) (λ value _. tt))
  | inr e ↦ rw e tt
]

parse_trimmed-Answers : (s : Bytes) → Answers Any (parse_trimmed s)
unfolding parse_trimmed
parse_trimmed-Answers [] = tt
parse_trimmed-Answers (c ∷ s) = elim (Bool-cases (bytes_eq (c ∷ s) (codes "null"))) [
  | inl e ↦ rw e tt
  | inr e ↦ rw e (text_of-Answers c s)
]

pub parse_string_like-Answers : (s : Bytes) → Answers Any (parse_string_like s)
unfolding parse_string_like
parse_string_like-Answers [] = tt
parse_string_like-Answers (c ∷ s) = parse_trimmed-Answers (trim_space (c ∷ s))

pub parse_optional_string-Answers : (s : Bytes) → Answers Any (parse_optional_string s)
unfolding parse_optional_string
parse_optional_string-Answers [] = tt
parse_optional_string-Answers (c ∷ s) = parse_string_like-Answers (c ∷ s)

number_or-Answers : (e : Error) (o : Option ℤ) → Answers Any (number_or e o)
number_or-Answers e none = tt
number_or-Answers e (some x) = tt

digits_of-Answers : (base : ℕ) (s : Bytes) → Answers Any (digits_of base s)
unfolding digits_of
digits_of-Answers base [] = tt
digits_of-Answers base (c ∷ s) = number_or-Answers _ (set_string base (c ∷ s))

big_of-Answers : (s : Bytes) → Answers Any (big_of s)
unfolding big_of
big_of-Answers s = elim (Bool-cases (has_prefix s (codes "0x"))) [
  | inl e ↦ rw e (digits_of-Answers 16 (drop 2 s))
  | inr e ↦ elim (Bool-cases (has_prefix s (codes "0X"))) [
    | inl f ↦ rw (e, f) (digits_of-Answers 16 (drop 2 s))
    | inr f ↦ rw (e, f) (digits_of-Answers 10 s)
  ]
]

pub parse_big_int-Answers : (s : Bytes) → Answers Any (parse_big_int s)
unfolding parse_big_int
parse_big_int-Answers s =
    Answers-bind Any Any (parse_string_like s) big_of (parse_string_like-Answers s)
      (λ value _. big_of-Answers value)

abbrev pub IsUint64 : ℕ → Type 0
IsUint64 n = n < 2 ^ 64

uint64_of-Answers : (x : ℤ) → Answers IsUint64 (uint64_of x)
unfolding uint64_of is_uint64 uint64
uint64_of-Answers (pos n) = elim (Bool-cases (ltb n (2 ^ 64))) [
  | inl e ↦ rw e (omega arith)
  | inr e ↦ rw e tt
]
uint64_of-Answers (negsuc n) = tt

pub parse_uint64-Answers : (s : Bytes) → Answers IsUint64 (parse_uint64 s)
unfolding parse_uint64
parse_uint64-Answers s =
    Answers-bind Any IsUint64 (parse_big_int s) uint64_of (parse_big_int-Answers s)
      (λ value _. uint64_of-Answers value)

pub decode_hex-Answers : (s : Bytes) → Answers (All (λ c. c < 256)) (decode_hex s)
unfolding decode_hex
decode_hex-Answers s = decode_string-Answers _

module _ (eth : Ethereum) (laws : EthereumLaws eth) where
  address_of-Answers : (s : Bytes) → Answers (λ a. length a ≡ 20) (address_of eth s)
  unfolding address_of
  address_of-Answers s = elim (Bool-cases (eth.is_hex_address s)) [
    | inl e ↦ rw e (laws.hex_to_address-length s)
    | inr e ↦ rw e tt
  ]

  pub parse_address-Answers : (s : Bytes) → Answers (λ a. length a ≡ 20) (parse_address eth s)
  unfolding parse_address
  parse_address-Answers s =
      Answers-bind Any (λ a. length a ≡ 20) (parse_string_like s) (address_of eth)
        (parse_string_like-Answers s) (λ value _. address_of-Answers value)

  hash_of-Answers : (s : Bytes) → Answers (λ h. length h ≡ 32) (hash_of eth s)
  unfolding hash_of
  hash_of-Answers s =
      Answers-bind (All (λ c. c < 256)) (λ h. length h ≡ 32) (decode_hex s) _ (decode_hex-Answers s)
        (λ decoded _.
          Answers-bind (λ _. ltb 32 (length decoded) ≡ false) (λ h. length h ≡ 32) _ _
            (Answers-reject (ltb 32 (length decoded)) _) (λ _ _. laws.hex_to_hash-length s))

  pub parse_hash-Answers : (s : Bytes) → Answers (λ h. length h ≡ 32) (parse_hash eth s)
  unfolding parse_hash
  parse_hash-Answers s =
      Answers-bind Any (λ h. length h ≡ 32) (parse_string_like s) (hash_of eth)
        (parse_string_like-Answers s) (λ value _. hash_of-Answers value)
