-- ===== src/Support/Check.antt =====
-- The report on a token against what its views return.
use eip.Prelude.{
  ℕ, ◌≡◌, ◌≢◌, ◌↔◌, refl, ap, ◌∙◌, arith, Bool, true, false, not, ◌&&◌, [], ◌∷◌, some, Bytes, codes,
  length, bytes_eq, bytes_eq_iff, if◌then◌else◌,
}
use eip.Outcome.{ok, panic}
use eip.Types.{Address, Hash, zero_address, zero_hash}
use eip.Ethereum.{
  CallMsg, AbiValue, address_value, hash_value, bool_value, Method, Ethereum, find_method,
}
use eip.Ethereum.Laws.{EthereumLaws}
use eip.Abi.{eip3009_abi}
use eip.Eip712.{transfer_type, receive_type, cancel_type}
use eip.Calldata.{bytes32_to_hash}
use eip.Support.{
  ContractCaller, FeatureCheck, SupportReport, report_of, check_bool, check_authorization_state,
  compare_hash, check_type_hash, check_eip3009_support, call_view,
}
use eip.Support.Views.{
  Reads, packs, Reads-call_view, call_view-Reads, AnswersOne, check_first_lem, call_view-AnswersOne,
}

check_bool_sound : (v : AbiValue) → (check_bool v).passes ≡ true → (b : Bool) × (v ≡ bool_value b)
unfolding check_bool
check_bool_sound (bool_value b) h = (b, refl)
check_bool_sound v h = cc

compare_hash_iff :
    (eth : Ethereum) (want : Hash) (v : AbiValue)
    → ((compare_hash eth want v).passes ≡ true) ↔ (bytes32_to_hash eth v ≡ want)
unfolding compare_hash
compare_hash_iff eth want v =
    let (to, from) = bytes_eq_iff (bytes32_to_hash eth v) want in
    ((λ h. to (ground arith)), λ e. ground (arith, from e))

module _ (eth : Ethereum) (caller : ContractCaller) (token : Address) where
  -- `authorizationState` returns a Boolean.
  abbrev pub HasState : Type 0
  HasState =
      (b : Bool) × Reads eth caller eip3009_abi token (codes "authorizationState")
        (address_value zero_address ∷ hash_value zero_hash ∷ []) (bool_value b)

  -- The view of a type hash returns the hash of this type.
  abbrev pub HasTypeHash : Bytes → Bytes → Type 0
  HasTypeHash method type_text =
      (v : AbiValue) × Reads eth caller eip3009_abi token method [] v
      × (bytes32_to_hash eth v ≡ eth.keccak256 type_text)

  module _ (laws : EthereumLaws eth) (calm : (m : CallMsg) → caller m ≢ panic) where
    -- The check of a type hash comes back, and passes exactly where the token has this type hash.
    check_type_hash_lem :
        (method type_text : Bytes) (m : Method)
        → find_method eip3009_abi method ≡ some m
        → m.inputs ≡ []
        → length m.outputs ≡ 1
        → (c : FeatureCheck) × (check_type_hash eth caller token method (eth.keccak256 type_text)
            ≡ ok c)
          × ((c.passes ≡ true) ↔ HasTypeHash method type_text)
    unfolding check_type_hash
    check_type_hash_lem method type_text m found no_inputs one =
        let view = call_view eth caller eip3009_abi token method [] in
        let want = eth.keccak256 type_text in
        let answers : AnswersOne view =
          call_view-AnswersOne eth laws caller calm eip3009_abi token method [] m found one
            (packs eth laws eip3009_abi method [] m found (rw no_inputs tt)) in
        let (c, e, (to, from)) = check_first_lem (compare_hash eth want) view answers in
        (
          c,
          e,
          (
            (λ p.
                let (v, reads, passed) = to p in
                (
                  v,
                  Reads-call_view eth caller eip3009_abi token method [] v reads,
                  (compare_hash_iff eth want v).0 passed,
                )),
            λ (v, reads, same). from (
              v,
              call_view-Reads eth caller eip3009_abi token method [] v reads,
              (compare_hash_iff eth want v).1 same,
            ),
          ),
        )

    check_authorization_state_lem :
        (c : FeatureCheck) × (check_authorization_state eth caller token ≡ ok c)
        × ((c.passes ≡ true) ↔ HasState)
    unfolding check_authorization_state check_bool find_method bytes_eq
    check_authorization_state_lem =
        let method = codes "authorizationState" in
        let args = address_value zero_address ∷ hash_value zero_hash ∷ [] in
        let answers : AnswersOne (call_view eth caller eip3009_abi token method args) =
          call_view-AnswersOne eth laws caller calm eip3009_abi token method args _ refl refl
            (packs eth laws eip3009_abi method args _ refl (refl, (refl, tt))) in
        let (c, e, (to, from)) = check_first_lem check_bool _ answers in
        (
          c,
          e,
          (
            (λ p.
                let (v, reads, passed) = to p in
                let (b, is_b) = check_bool_sound v passed in
                (
                  b,
                  Reads-call_view eth caller eip3009_abi token method args _
                      (reads ∙ ap (λ w. ok (w ∷ [])) is_b),
                )),
            λ (b, reads). from (
              bool_value b,
              call_view-Reads eth caller eip3009_abi token method args _ reads,
              refl,
            ),
          ),
        )

-- What the report on a token states.
pub record Reports (eth : Ethereum) (caller : ContractCaller) (token : Address)
    (report : SupportReport) : Type 0 where
  pub same_token : report.token ≡ token
  pub supported_iff : (report.supported ≡ true) ↔ (
      HasState eth caller token
      × HasTypeHash eth caller token (codes "TRANSFER_WITH_AUTHORIZATION_TYPEHASH") transfer_type
      × HasTypeHash eth caller token (codes "RECEIVE_WITH_AUTHORIZATION_TYPEHASH") receive_type)
  pub cancel_iff :
      (report.cancel_authorization.passes ≡ true)
      ↔ HasTypeHash eth caller token (codes "CANCEL_AUTHORIZATION_TYPEHASH") cancel_type
  pub notes_iff :
      (report.cancel_authorization_notes ≡ []) ↔ (report.cancel_authorization.passes ≡ true)

and3_iff : (a b c : Bool) → ((a && b && c) ≡ true) ↔ ((a ≡ true) × (b ≡ true) × (c ≡ true))
and3_iff a b c = ((λ h. ground arith), λ h. ground arith)

notes_iff_passes :
    (c : Bool) (n : ℕ) (text : Bytes) → ((if not c then n ∷ text else []) ≡ []) ↔ (c ≡ true)
notes_iff_passes true n text = ((λ h. refl), λ h. refl)
notes_iff_passes false n text = ((λ h. cc), λ h. cc)

-- For a caller that answers every call with bytes or an error, `CheckEIP3009Support` returns a
-- report, on this token. It says supported exactly where `authorizationState` returns a Boolean and
-- the transfer and receive type hashes are the hashes of the two types; the cancel check passes
-- exactly where the cancel type hash is the hash of its type, and the notes are empty exactly then.
pub check_eip3009_support-Reports :
    (eth : Ethereum) (laws : EthereumLaws eth) (caller : ContractCaller)
    → ((m : CallMsg) → caller m ≢ panic)
    → (token : Address)
    → (report : SupportReport) × (check_eip3009_support eth caller token ≡ ok report)
      × Reports eth caller token report
unfolding check_eip3009_support find_method bytes_eq
check_eip3009_support-Reports eth laws caller calm token =
    let (s, es, s_iff) = check_authorization_state_lem eth caller token laws calm in
    let hash_lem = check_type_hash_lem eth caller token laws calm in
    let (t, et, t_iff) =
      hash_lem (codes "TRANSFER_WITH_AUTHORIZATION_TYPEHASH") transfer_type _ refl refl refl in
    let (r, er, r_iff) =
      hash_lem (codes "RECEIVE_WITH_AUTHORIZATION_TYPEHASH") receive_type _ refl refl refl in
    let (c, ec, c_iff) =
      hash_lem (codes "CANCEL_AUTHORIZATION_TYPEHASH") cancel_type _ refl refl refl in
    let (to, from) = and3_iff s.passes t.passes r.passes in
    (
      report_of token s t r c,
      rw (es, et, er, ec) refl,
      record {
        same_token = refl;
        supported_iff = (
          (λ h. let (hs, ht, hr) = to h in (s_iff.0 hs, t_iff.0 ht, r_iff.0 hr)),
          λ (hs, ht, hr). from (s_iff.1 hs, t_iff.1 ht, r_iff.1 hr),
        );
        cancel_iff = c_iff;
        notes_iff = notes_iff_passes c.passes _ _;
      },
    )
