-- ===== src/Support/Metadata.antt =====
-- The token metadata against what its views return.
use eip.Prelude.{
  ℕ, ◌≡◌, ◌≢◌, ◌↔◌, ◌∙◌, refl, ap, arith, List, [], ◌∷◌, some, Bytes, codes, length, bytes_eq,
}
use eip.Outcome.{Outcome, ok, err, panic, ◌>>=◌}
use eip.Types.{Address}
use eip.Ethereum.{CallMsg, AbiValue, uint8_value, string_value, Method, Ethereum, find_method}
use eip.Ethereum.Laws.{EthereumLaws}
use eip.Abi.{erc20_metadata_abi}
use eip.Support.{
  ContractCaller, first_value, as_decimals, as_string, call_view, token_decimals, token_string,
  token_symbol, token_name, token_version,
}
use eip.Support.Views.{
  Reads, packs, Reads-call_view, call_view-Reads, AnswersOne, call_view-AnswersOne,
}

-- The first of the values of a result that holds one.
first_value_lem :
    {A : Type 0} (r : Outcome (List AbiValue)) (read : AbiValue → Outcome A) (a : A)
    → AnswersOne r
    → ((r >>= λ values. first_value values >>= read) ≡ ok a)
      ↔ ((v : AbiValue) × (r ≡ ok (v ∷ [])) × (read v ≡ ok a))
unfolding first_value
first_value_lem (ok []) read a h = absurd (omega (arith, h.1 [] refl))
first_value_lem (ok (v ∷ [])) read a h =
    ((λ e. (v, refl, e)), λ (w, e, p). let same : v ≡ w = cc in rw same p)
first_value_lem (ok (v ∷ w ∷ vs)) read a h = absurd (omega (arith, h.1 (v ∷ w ∷ vs) refl))
first_value_lem (err reason) read a h = ((λ e. cc), λ (w, e, p). cc)
first_value_lem panic read a h = absurd (h.0 refl)

as_decimals_sound : (v : AbiValue) (n : ℕ) → as_decimals v ≡ ok n → v ≡ uint8_value n
unfolding as_decimals
as_decimals_sound (uint8_value m) n h = cc
as_decimals_sound v n h = cc

as_string_sound :
    (method : Bytes) (v : AbiValue) (s : Bytes) → as_string method v ≡ ok s → v ≡ string_value s
unfolding as_string
as_string_sound method (string_value t) s h = cc
as_string_sound method v s h = cc

module _ (eth : Ethereum) (laws : EthereumLaws eth) (caller : ContractCaller)
    (calm : (m : CallMsg) → caller m ≢ panic) (token : Address) where
  -- The view of the metadata returns this one value.
  view_iff :
      {A : Type 0} (method : Bytes) (m : Method) (read : AbiValue → Outcome A) (a : A)
      (v : AbiValue)
      → find_method erc20_metadata_abi method ≡ some m
      → m.inputs ≡ []
      → length m.outputs ≡ 1
      → ((w : AbiValue) → read w ≡ ok a → w ≡ v)
      → read v ≡ ok a
      → ((call_view eth caller erc20_metadata_abi token method [] >>= λ values.
            first_value values >>= read)
          ≡ ok a)
        ↔ Reads eth caller erc20_metadata_abi token method [] v
  view_iff method m read a v found no_inputs one sound complete =
      let answers : AnswersOne (call_view eth caller erc20_metadata_abi token method []) =
        call_view-AnswersOne eth laws caller calm erc20_metadata_abi token method [] m found one
          (packs eth laws erc20_metadata_abi method [] m found (rw no_inputs tt)) in
      let (to, from) = first_value_lem _ read a answers in
      (
        (λ h.
            let (w, reads, e) = to h in
            Reads-call_view eth caller erc20_metadata_abi token method [] v
              (reads ∙ ap (λ u. ok (u ∷ [])) (sound w e))),
        λ reads.
            from
              (v, call_view-Reads eth caller erc20_metadata_abi token method [] v reads, complete),
      )

-- For a caller that answers every call with bytes or an error: the decimals, the symbol, the name
-- and the version of a token are returned exactly where the view of that name returns one value, of
-- type uint8 for the decimals and a string for the others, and are that value.
pub token_metadata_iff :
    (eth : Ethereum) (laws : EthereumLaws eth) (caller : ContractCaller)
    → ((m : CallMsg) → caller m ≢ panic)
    → (token : Address) (n : ℕ) (text : Bytes)
    → ((token_decimals eth caller token ≡ ok n)
        ↔ Reads eth caller erc20_metadata_abi token (codes "decimals") [] (uint8_value n))
      × ((token_symbol eth caller token ≡ ok text)
          ↔ Reads eth caller erc20_metadata_abi token (codes "symbol") [] (string_value text))
      × ((token_name eth caller token ≡ ok text)
          ↔ Reads eth caller erc20_metadata_abi token (codes "name") [] (string_value text))
      × ((token_version eth caller token ≡ ok text)
          ↔ Reads eth caller erc20_metadata_abi token (codes "version") [] (string_value text))
unfolding token_decimals token_symbol token_name token_version token_string as_decimals as_string
    find_method bytes_eq
token_metadata_iff eth laws caller calm token n text = (
  view_iff eth laws caller calm token (codes "decimals") _ as_decimals n _ refl refl refl
      (λ w. as_decimals_sound w n) refl,
  view_iff eth laws caller calm token (codes "symbol") _ (as_string _) text _ refl refl refl
      (λ w. as_string_sound _ w text) refl,
  view_iff eth laws caller calm token (codes "name") _ (as_string _) text _ refl refl refl
      (λ w. as_string_sound _ w text) refl,
  view_iff eth laws caller calm token (codes "version") _ (as_string _) text _ refl refl refl
      (λ w. as_string_sound _ w text) refl,
)
