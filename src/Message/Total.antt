-- ===== src/Message/Total.antt =====
-- ParseMessageJSON returns a well-formed authorization or an error, on every text.
use mathlib.Core.Path.{subst}
use eip.Amount.{is_empty}
use eip.Prelude.{
  zero, suc, ◌∙◌, ℕ, ◌<◌, ◌≡◌, ◌≢◌, refl, sym, All, ap, false, inl, inr, [], ◌∷◌, Option, none,
  some, arith, Bytes, codes, ltb, Bool-cases, Option-cases, bytes_eq, length, length-take,
  length-drop, take, drop, ◌==◌, get_elem?,
}
use eip.Outcome.{ok, panic, Answers, Answers-bind, Answers-wrap, Answers-reject, Answers-split}
use eip.Types.{Signature, SignedAuthorization}
use eip.Ethereum.{Ethereum}
use eip.Ethereum.Laws.{EthereumLaws}
use eip.Eip712.Fields.{IsKnown}
use eip.Calldata.RoundTrip.{SignatureFits}
use eip.Go.Strings.{trim_space}
use eip.Go.Json.Decode.{Members, lookup, unmarshal_object}
use eip.Raw.{get, parse_string_like, decode_hex}
use eip.Raw.Total.{
  Any, unmarshal_object-Answers, parse_string_like-Answers, IsUint64, parse_uint64-Answers,
  decode_hex-Answers, parse_hash-Answers,
}
use eip.Message.{
  parse_kind, signature_of_decoded, signature_of_text, signature_of_object, signature_of,
  parse_signature, message_of, typed_root, root_of, parse_message_json,
}
use eip.Message.Parts.{
  DomainReads, MessageReads, kind_from-Answers, parse_domain-Answers, parse_authorization-Answers,
}

abbrev pub SignatureReads : Option Signature → Type 0
SignatureReads none = Unit
SignatureReads (some sig) = SignatureFits sig

pub record SignedReads (signed : SignedAuthorization) : Type 0 where
  pub kind-IsKnown : IsKnown signed.authorization.kind
  pub domain : DomainReads signed.domain
  pub message : MessageReads signed.authorization.kind signed.authorization
  pub signature : SignatureReads signed.signature

All-get : (b : Bytes) (i v : ℕ) → All (λ c. c < 256) b → get_elem? b i ≡ some v → v < 256
All-get [] i v h e = cc
All-get (c ∷ s) zero v h e = let same : c ≡ v = cc in omega (arith, h.0)
All-get (c ∷ s) (suc i) v h e = All-get s i v h.1 e

get-some : (b : Bytes) (i : ℕ) → i < length b → (v : ℕ) × (get_elem? b i ≡ some v)
get-some [] i h = absurd (omega arith)
get-some (c ∷ s) zero h = (c, refl)
get-some (c ∷ s) (suc i) h = get-some s i (omega arith)

module _ (eth : Ethereum) (laws : EthereumLaws eth) where
  -- A signature of 65 bytes is cut into its parts.
  parts-SignatureFits :
      (b : Bytes) (v : ℕ)
      → length b ≡ 65
      → v < 256
      → SignatureFits (record {
        v = v;
        r = eth.bytes_to_hash (take 32 b);
        s = eth.bytes_to_hash (take 32 (drop 32 b));
      })
  parts-SignatureFits b v n h =
      let first : length (take 32 b) ≡ 32 = length-take 32 b (omega arith) in
      let second : length (take 32 (drop 32 b)) ≡ 32 =
        length-take 32 (drop 32 b) (omega (arith, length-drop {A = ℕ} 32 b)) in
      (
        h,
        ap (λ (t : Bytes). length t) (laws.bytes_to_hash-length (take 32 b) first) ∙ first,
        ap (λ (t : Bytes). length t) (laws.bytes_to_hash-length (take 32 (drop 32 b)) second)
            ∙ second,
      )

  decoded-Answers :
      (b : Bytes) → All (λ c. c < 256) b → Answers SignatureReads (signature_of_decoded eth b)
  unfolding signature_of_decoded
  decoded-Answers b h = elim (Bool-cases (length b == 65)) [
    | inl e ↦
        let n : length b ≡ 65 = ground arith in
        let (v, g) = get-some b 64 (omega arith) in
        rw (g, n) (parts-SignatureFits b v n (All-get b 64 v h g))
    | inr e ↦ rw e tt
  ]

  text-Answers : (value : Bytes) → Answers SignatureReads (signature_of_text eth value)
  unfolding signature_of_text
  text-Answers value =
      Answers-bind (All (λ c. c < 256)) SignatureReads (decode_hex value) (signature_of_decoded eth)
        (decode_hex-Answers value) decoded-Answers

  object-Answers : (members : Members) → Answers SignatureReads (signature_of_object eth members)
  unfolding signature_of_object
  object-Answers members =
      Answers-bind IsUint64 SignatureReads _ _
        (Answers-wrap IsUint64 _ _ (parse_uint64-Answers (get (codes "v") members)))
        (λ v _.
          Answers-bind (λ n. length n ≡ 32) SignatureReads _ _
            (Answers-wrap (λ n. length n ≡ 32) _ _
              (parse_hash-Answers eth laws (get (codes "r") members)))
            (λ r hr.
              Answers-bind (λ n. length n ≡ 32) SignatureReads _ _
                (Answers-wrap (λ n. length n ≡ 32) _ _
                  (parse_hash-Answers eth laws (get (codes "s") members)))
                (λ s hs.
                  Answers-bind (λ _. ltb 255 v ≡ false) SignatureReads _ _
                    (Answers-reject (ltb 255 v) _) (λ _ small. (omega arith, hr, hs)))))

  signature_of-Answers : (c : ℕ) (s : Bytes) → Answers SignatureReads (signature_of eth (c ∷ s))
  unfolding signature_of
  signature_of-Answers c s = elim (Bool-cases (c == b'"')) [
    | inl e ↦ rw e (
        Answers-bind Any SignatureReads (parse_string_like (c ∷ s)) (signature_of_text eth)
          (parse_string_like-Answers (c ∷ s)) (λ value _. text-Answers value))
    | inr e ↦ rw e (
        Answers-bind Any SignatureReads (unmarshal_object (c ∷ s)) (signature_of_object eth)
          (unmarshal_object-Answers (c ∷ s)) (λ members _. object-Answers members))
  ]

  parse_signature-Answers : (raw : Bytes) → Answers SignatureReads (parse_signature eth raw)
  unfolding parse_signature
  parse_signature-Answers [] = tt
  parse_signature-Answers (c ∷ s) =
      elim (Bool-cases (bytes_eq (trim_space (c ∷ s)) (codes "null"))) [
        | inl e ↦ rw e tt
        | inr e ↦ rw e (signature_of-Answers c s)
      ]

  message_of-Answers :
      (sig : Option Signature) (root : Members)
      → SignatureReads sig
      → Answers SignedReads (message_of eth sig root)
  unfolding message_of parse_kind
  message_of-Answers sig root hs =
      Answers-bind IsKnown SignedReads _ _
        (kind_from-Answers root (codes "authorizationType" ∷ codes "primaryType" ∷ []))
        (λ kind i.
          Answers-bind DomainReads SignedReads _ _
            (parse_domain-Answers eth laws (get (codes "domain") root))
            (λ domain hd.
              Answers-bind (MessageReads kind) SignedReads _ _
                (parse_authorization-Answers eth laws kind (get (codes "message") root) i)
                (λ auth ha. record {
                  kind-IsKnown = rw ha.kind-same i;
                  domain = hd;
                  message = subst (λ k. MessageReads k auth) (sym ha.kind-same) ha;
                  signature = hs;
                })))

  typed_root-Answers : (root : Members) → Answers Any (typed_root eth root)
  unfolding typed_root
  typed_root-Answers root = elim (Option-cases (lookup (codes "typedData") root)) [
    | inl e ↦ rw (typed_root, e) tt
    | inr (raw, e) ↦ rw (typed_root, e) (Answers-wrap Any _ _ (unmarshal_object-Answers raw))
  ]

  root_of-Answers : (root : Members) → Answers SignedReads (root_of eth root)
  unfolding root_of
  root_of-Answers root =
      Answers-bind SignatureReads SignedReads _ _
        (parse_signature-Answers (get (codes "signature") root))
        (λ sig hs.
          Answers-bind Any SignedReads _ _ (typed_root-Answers root)
            (λ inner _. message_of-Answers sig inner hs))

  parse_message-Answers : (input : Bytes) → Answers SignedReads (parse_message_json eth input)
  unfolding parse_message_json
  parse_message-Answers input =
      Answers-bind (λ _. is_empty (trim_space input) ≡ false) SignedReads _ _
        (Answers-reject (is_empty (trim_space input)) _)
        (λ _ _.
          Answers-bind Any SignedReads _ _ (unmarshal_object-Answers (trim_space input))
            (λ root _. root_of-Answers root))

  -- ParseMessageJSON does not panic on any text, and what it returns has one of the three kinds, a chain
  -- id, fields of the sizes of their types with times below 2^64, zero values where the kind has no
  -- field, and a signature, if there is one, with v below 256 and two words of 32 bytes.
  pub parse_message_total :
      (input : Bytes)
      → (parse_message_json eth input ≢ panic)
        × ((signed : SignedAuthorization)
            → parse_message_json eth input ≡ ok signed
            → SignedReads signed)
  parse_message_total input =
      Answers-split SignedReads (parse_message_json eth input) (parse_message-Answers input)
