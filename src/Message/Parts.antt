-- ===== src/Message/Parts.antt =====
-- The kind, the domain and the message that are read of a document have the sizes of their types.
use eip.Prelude.{
  ◌^◌, ◌<◌, ◌≡◌, refl, ◌||◌, inl, inr, List, [], ◌∷◌, some, Bytes, codes, Bool-cases, Option-cases,
  bytes_eq, length, ℤ,
}
use eip.Outcome.{Answers, Answers-bind, Answers-wrap}
use eip.Types.{
  Hash, zero_address, AuthorizationKind, transfer, receive, cancel, other, Domain, Authorization,
  kind_of, normalize_authorization_kind,
}
use eip.Ethereum.{Ethereum}
use eip.Ethereum.Laws.{EthereumLaws}
use eip.Eip712.Fields.{IsKnown}
use eip.Calldata.RoundTrip.{carried}
use eip.Go.Strings.{trim_space, to_lower}
use eip.Go.Json.Decode.{Members, lookup, unmarshal_object}
use eip.Raw.{get, parse_string_like, first_raw}
use eip.Raw.Total.{
  Any, unmarshal_object-Answers, parse_string_like-Answers, parse_optional_string-Answers,
  parse_big_int-Answers, IsUint64, parse_uint64-Answers, parse_address-Answers, parse_hash-Answers,
}
use eip.Message.{
  kind_from, domain_of, parse_domain, cancel_of, transfer_of, fields_of, authorization_of,
  parse_authorization,
}

kind_of-Answers : (lower value : Bytes) → Answers IsKnown (kind_of lower value)
unfolding kind_of
kind_of-Answers lower value =
    elim (Bool-cases (
      bytes_eq lower []
      || bytes_eq lower (codes "transfer")
      || bytes_eq lower (codes "transferwithauthorization")
      || bytes_eq lower (codes "transfer_with_authorization"))) [
        | inl a ↦ rw a tt
        | inr a ↦
            elim (Bool-cases (
              bytes_eq lower (codes "receive")
              || bytes_eq lower (codes "receivewithauthorization")
              || bytes_eq lower (codes "receive_with_authorization"))) [
                | inl b ↦ rw (a, b) tt
                | inr b ↦
                    elim (Bool-cases (
                      bytes_eq lower (codes "cancel")
                      || bytes_eq lower (codes "cancelauthorization")
                      || bytes_eq lower (codes "cancel_authorization"))) [
                        | inl c ↦ rw (a, b, c) tt
                        | inr c ↦ rw (a, b, c) tt
                      ]
              ]
      ]

pub normalize-Answers : (value : Bytes) → Answers IsKnown (normalize_authorization_kind value)
unfolding normalize_authorization_kind
normalize-Answers value = kind_of-Answers (to_lower (trim_space value)) value

pub kind_from-Answers : (root : Members) (keys : List Bytes) → Answers IsKnown (kind_from root keys)
unfolding kind_from
kind_from-Answers root [] = tt
kind_from-Answers root (key ∷ keys) = elim (Option-cases (lookup key root)) [
  | inl e ↦ rw (kind_from, e) (kind_from-Answers root keys)
  | inr (raw, e) ↦
      rw (kind_from, e)
        (Answers-bind Any IsKnown (parse_string_like raw) normalize_authorization_kind
          (parse_string_like-Answers raw) (λ value _. normalize-Answers value))
]

-- What is read of a domain.
pub record DomainReads (d : Domain) : Type 0 where
  pub chain : (x : ℤ) × (d.chain_id ≡ some x)
  pub contract-length : length d.verifying_contract ≡ 20

-- What is read of a message: the fields of its kind have the sizes of their types, and the others are
-- zero.
pub record TransferReads (a : Authorization) : Type 0 where
  pub from-length : length a.from ≡ 20
  pub to-length : length a.to ≡ 20
  pub value-some : (x : ℤ) × (a.value ≡ some x)
  pub valid_after-lt : a.valid_after < 2 ^ 64
  pub valid_before-lt : a.valid_before < 2 ^ 64
  pub nonce-length : length a.nonce ≡ 32

abbrev pub FieldsRead : AuthorizationKind → Authorization → Type 0
FieldsRead cancel a = (length a.authorizer ≡ 20) × (length a.nonce ≡ 32)
FieldsRead _ a = TransferReads a

pub record MessageReads (k : AuthorizationKind) (a : Authorization) : Type 0 where
  pub kind-same : a.kind ≡ k
  pub fields : FieldsRead k a
  pub others_zero : carried k a ≡ a

module _ (eth : Ethereum) (laws : EthereumLaws eth) where
  domain_of-Answers : (members : Members) → Answers DomainReads (domain_of eth members)
  unfolding domain_of
  domain_of-Answers members =
      Answers-bind Any DomainReads _ _
        (Answers-wrap Any _ _ (parse_optional_string-Answers (get (codes "name") members)))
        (λ name _.
          Answers-bind Any DomainReads _ _
            (Answers-wrap Any _ _ (parse_optional_string-Answers (get (codes "version") members)))
            (λ version _.
              Answers-bind Any DomainReads _ _
                (Answers-wrap Any _ _ (parse_big_int-Answers (get (codes "chainId") members)))
                (λ chain_id _.
                  Answers-bind (λ a. length a ≡ 20) DomainReads _ _
                    (Answers-wrap (λ a. length a ≡ 20) _ _
                      (parse_address-Answers eth laws (get (codes "verifyingContract") members)))
                    (λ token h. record { chain = (chain_id, refl); contract-length = h }))))

  pub parse_domain-Answers : (raw : Bytes) → Answers DomainReads (parse_domain eth raw)
  unfolding parse_domain
  parse_domain-Answers [] = tt
  parse_domain-Answers (c ∷ s) =
      Answers-bind Any DomainReads (unmarshal_object (c ∷ s)) (domain_of eth)
        (unmarshal_object-Answers (c ∷ s)) (λ members _. domain_of-Answers members)

  cancel_of-Answers :
      (nonce : Hash) (members : Members)
      → length nonce ≡ 32
      → Answers (MessageReads cancel) (cancel_of eth cancel nonce members)
  unfolding cancel_of
  cancel_of-Answers nonce members h =
      Answers-bind (λ a. length a ≡ 20) (MessageReads cancel) _ _
        (Answers-wrap (λ a. length a ≡ 20) _ _
          (parse_address-Answers eth laws
            (first_raw members (codes "authorizer" ∷ codes "from" ∷ []))))
        (λ authorizer ha. record { kind-same = refl; fields = (ha, h); others_zero = refl })

  transfer_of-Answers :
      (k : AuthorizationKind) (nonce : Hash) (members : Members)
      → ((a : Authorization)
          → a.kind ≡ k
          → a.authorizer ≡ zero_address
          → TransferReads a
          → MessageReads k a)
      → length nonce ≡ 32
      → Answers (MessageReads k) (transfer_of eth k nonce members)
  unfolding transfer_of
  transfer_of-Answers k nonce members complete h =
      Answers-bind (λ a. length a ≡ 20) (MessageReads k) _ _
        (Answers-wrap (λ a. length a ≡ 20) _ _
          (parse_address-Answers eth laws (get (codes "from") members)))
        (λ from hf.
          Answers-bind (λ a. length a ≡ 20) (MessageReads k) _ _
            (Answers-wrap (λ a. length a ≡ 20) _ _
              (parse_address-Answers eth laws (get (codes "to") members)))
            (λ to ht.
              Answers-bind Any (MessageReads k) _ _
                (Answers-wrap Any _ _ (parse_big_int-Answers (get (codes "value") members)))
                (λ value _.
                  Answers-bind IsUint64 (MessageReads k) _ _
                    (Answers-wrap IsUint64 _ _
                      (parse_uint64-Answers (get (codes "validAfter") members)))
                    (λ valid_after hv.
                      Answers-bind IsUint64 (MessageReads k) _ _
                        (Answers-wrap IsUint64 _ _
                          (parse_uint64-Answers (get (codes "validBefore") members)))
                        (λ valid_before hb. complete _ refl refl (record {
                          from-length = hf;
                          to-length = ht;
                          value-some = (value, refl);
                          valid_after-lt = hv;
                          valid_before-lt = hb;
                          nonce-length = h;
                        }))))))

  fields_of-Answers :
      (k : AuthorizationKind) (nonce : Hash) (members : Members)
      → IsKnown k
      → length nonce ≡ 32
      → Answers (MessageReads k) (fields_of eth k nonce members)
  unfolding fields_of
  fields_of-Answers transfer nonce members i h =
      transfer_of-Answers transfer nonce members
        (λ a e z r. record { kind-same = e; fields = r; others_zero = rw (← e, ← z) refl }) h
  fields_of-Answers receive nonce members i h =
      transfer_of-Answers receive nonce members
        (λ a e z r. record { kind-same = e; fields = r; others_zero = rw (← e, ← z) refl }) h
  fields_of-Answers cancel nonce members i h = cancel_of-Answers nonce members h
  fields_of-Answers (other t) nonce members i h = absurd i

  pub parse_authorization-Answers :
      (k : AuthorizationKind) (raw : Bytes)
      → IsKnown k
      → Answers (MessageReads k) (parse_authorization eth k raw)
  unfolding parse_authorization authorization_of
  parse_authorization-Answers k [] i = tt
  parse_authorization-Answers k (c ∷ s) i =
      Answers-bind Any (MessageReads k) (unmarshal_object (c ∷ s)) (authorization_of eth k)
        (unmarshal_object-Answers (c ∷ s))
        (λ members _.
          Answers-bind (λ n. length n ≡ 32) (MessageReads k) _ _
            (Answers-wrap (λ n. length n ≡ 32) _ _
              (parse_hash-Answers eth laws (get (codes "nonce") members)))
            (λ nonce h. fields_of-Answers k nonce members i h))
