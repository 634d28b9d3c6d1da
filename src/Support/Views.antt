-- ===== src/Support/Views.antt =====
-- What a call of a view comes back with.
use eip.Prelude.{◌==◌, ◌≡◌, ◌≢◌, ◌↔◌, refl, arith, true, false, List, [], ◌∷◌, some, Bytes, length}
use eip.Outcome.{empty_return, Outcome, ok, err, panic, ◌>>=◌, reject, reject_calm, >>=-eq-ok}
use eip.Types.{Address, zero_address}
use eip.Ethereum.{CallMsg, Abi, AbiValue, Method, Ethereum, find_method, AllFit}
use eip.Ethereum.Laws.{EthereumLaws}
use eip.Support.{ContractCaller, FeatureCheck, first_value, check_first, call_view}

module _ (eth : Ethereum) (caller : ContractCaller) (abi : Abi) (token : Address) where
  -- The call of a view of the token returns this one value: it is packed, answered with some bytes,
  -- and the bytes are the value.
  pub record Reads (method : Bytes) (args : List AbiValue) (v : AbiValue) : Type 0 where
    pub input : Bytes
    pub packed : eth.pack abi method args ≡ ok input
    pub output : Bytes
    pub answered : caller (record { from = zero_address; to = token; input = input }) ≡ ok output
    pub not_empty : output ≢ []
    pub unpacked_as : eth.unpack_result abi method output ≡ ok (v ∷ [])

  non_empty : (b : Bytes) → b ≢ [] → (length b == 0) ≡ false
  non_empty [] h = absurd (h refl)
  non_empty (c ∷ b) h = ground arith

  pub call_view-Reads :
      (method : Bytes) (args : List AbiValue) (v : AbiValue)
      → Reads method args v
      → call_view eth caller abi token method args ≡ ok (v ∷ [])
  unfolding call_view
  call_view-Reads method args v r =
      rw (r.packed, r.answered, non_empty r.output r.not_empty) r.unpacked_as

  tested : (b : Bytes) → reject (length b == 0) empty_return ≡ ok tt → b ≢ []
  tested [] h e = cc
  tested (c ∷ b) h e = cc

  pub Reads-call_view :
      (method : Bytes) (args : List AbiValue) (v : AbiValue)
      → call_view eth caller abi token method args ≡ ok (v ∷ [])
      → Reads method args v
  unfolding call_view
  Reads-call_view method args v h =
      let (input, packed, h₁) = >>=-eq-ok (eth.pack abi method args) _ h in
      let (output, answered, h₂) =
        >>=-eq-ok (caller (record { from = zero_address; to = token; input = input })) _ h₁ in
      let (done, passed, unpacked_as) = >>=-eq-ok (reject (length output == 0) empty_return) _ h₂ in
      record {
        input = input;
        packed = packed;
        output = output;
        answered = answered;
        not_empty = tested output passed;
        unpacked_as = unpacked_as;
      }

-- A result that is not a panic, and holds one value if it is no error.
abbrev pub AnswersOne : Outcome (List AbiValue) → Type 0
AnswersOne r = (r ≢ panic) × ((vs : List AbiValue) → r ≡ ok vs → length vs ≡ 1)

AnswersOne-bind :
    {A : Type 0} (r : Outcome A) (f : A → Outcome (List AbiValue))
    → r ≢ panic
    → ((a : A) → AnswersOne (f a))
    → AnswersOne (r >>= f)
AnswersOne-bind (ok a) f calm h = h a
AnswersOne-bind (err e) f calm h = (λ no. cc, λ vs no. cc)
AnswersOne-bind panic f calm h = absurd (calm refl)

-- Arguments that fit are packed.
pub packs :
    (eth : Ethereum) (laws : EthereumLaws eth) (abi : Abi) (method : Bytes) (args : List AbiValue)
    (m : Method)
    → find_method abi method ≡ some m
    → AllFit m.inputs args
    → eth.pack abi method args ≢ panic
packs eth laws abi method args m found fits =
    let (b, packed, len, back) = laws.pack-fits m.inputs args fits in
    rw (laws.pack-selector abi method m args found, packed) (λ no. cc)

-- A view of one output, whose arguments are packed, comes back with one value or an error.
pub call_view-AnswersOne :
    (eth : Ethereum) (laws : EthereumLaws eth) (caller : ContractCaller)
    → ((m : CallMsg) → caller m ≢ panic)
    → (abi : Abi) (token : Address) (method : Bytes) (args : List AbiValue) (m : Method)
    → find_method abi method ≡ some m
    → length m.outputs ≡ 1
    → eth.pack abi method args ≢ panic
    → AnswersOne (call_view eth caller abi token method args)
unfolding call_view
call_view-AnswersOne eth laws caller calm abi token method args m found one packs =
    AnswersOne-bind _ _ packs λ input. AnswersOne-bind _ _ (calm _) λ output.
      AnswersOne-bind _ _ (reject_calm _ _) λ done.
        let answers = laws.unpack_result-answers abi method m output found in
        (answers.0, λ vs e. omega (arith, one, answers.1 vs e))

-- A check of the first value passes exactly where the result is one value that passes it.
pub check_first_lem :
    (test : AbiValue → FeatureCheck) (r : Outcome (List AbiValue))
    → AnswersOne r
    → (c : FeatureCheck) × (check_first r test ≡ ok c)
      × ((c.passes ≡ true) ↔ ((v : AbiValue) × (r ≡ ok (v ∷ [])) × ((test v).passes ≡ true)))
unfolding check_first first_value
check_first_lem test (ok []) h = absurd (omega (arith, h.1 [] refl))
check_first_lem test (ok (v ∷ [])) h = (test v, refl, ((λ e. (v, refl, e)), λ (w, e, p). cc))
check_first_lem test (ok (v ∷ w ∷ vs)) h = absurd (omega (arith, h.1 (v ∷ w ∷ vs) refl))
check_first_lem test (err e) h = (_, refl, ((λ e. cc), λ (w, e, p). cc))
check_first_lem test panic h = absurd (h.0 refl)
