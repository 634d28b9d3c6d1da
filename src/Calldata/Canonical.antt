-- ===== src/Calldata/Canonical.antt =====
-- What `DecodeExecuteCalldata` makes of any bytes.
use eip.Prelude.{
  ℕ, ◌^◌, ◌<◌, ◌≡◌, ◌≢◌, ◌⊎◌, inl, inr, refl, Bool-cases, ltb, List, map, none, some, Bytes, length,
  take, drop, bytes_eq,
}
use eip.Outcome.{Error, Outcome, ok, err, panic, ◌>>=◌, reject, reject_calm}
use eip.Types.{
  zero_address, AuthorizationKind, transfer, receive, cancel, other, kind_text, Authorization,
  Signature, SignedAuthorization,
}
use eip.Ethereum.{Ethereum, AbiValue, big_value, Method, unpacked, AllUnpacked, find_method}
use eip.Ethereum.Laws.{EthereumLaws}
use eip.Prelude.{bytes_eq_sound, codes, ltb→lt, ap, sym, ◌∙◌}
use eip.Abi.{eip3009_abi}
use mathlib.Core.Path.{subst}
use eip.Outcome.{ok-injective}
use eip.Eip712.{big}
use eip.Eip712.Fields.{MessageFits, IsKnown}
use eip.Go.Big.{is_uint64}
use eip.Calldata.{
  kind_named, zero_domain, call_values, as_big, big_to_uint64, fit_uint64, encode_execute_calldata,
  decode_transfer, decode_cancel, decode_method, decode_execute_calldata,
}
use eip.Calldata.RoundTrip.{
  fit_uint64-pos, SignatureFits, execute_inputs, method_of, found, named, decode_transfer-values,
  decode_method-values, decode-encode,
}
use eip.Calldata.Values.{TransferValues, transfer_values, CancelValues, cancel_values}
use eip.Outcome.{short_calldata, overflows_uint64}

-- A time that fits, or the error of one that does not.
time_cases : (n : ℕ) → (n < 2 ^ 64) ⊎ (big_to_uint64 (big_value (big n)) ≡ err overflows_uint64)
unfolding big_to_uint64 fit_uint64 is_uint64
time_cases n = elim (Bool-cases (ltb n (2 ^ 64))) [
  | inl h ↦ inl (ltb→lt n (2 ^ 64) h)
  | inr h ↦ inr (rw h refl)
]

-- A method of the interface that executes an authorization, or one that does not.
method_cases :
    (name : Bytes)
    → ((k : AuthorizationKind) × IsKnown k × (name ≡ kind_text k)) ⊎ (kind_named name ≡ other name)
unfolding kind_named kind_text
method_cases name = elim (Bool-cases (bytes_eq name (codes "transferWithAuthorization"))) [
  | inl h ↦ inl (transfer, tt, bytes_eq_sound name _ h)
  | inr h₁ ↦ elim (Bool-cases (bytes_eq name (codes "receiveWithAuthorization"))) [
    | inl h ↦ inl (receive, tt, bytes_eq_sound name _ h)
    | inr h₂ ↦ elim (Bool-cases (bytes_eq name (codes "cancelAuthorization"))) [
      | inl h ↦ inl (cancel, tt, bytes_eq_sound name _ h)
      | inr h₃ ↦ inr (rw (h₁, h₂, h₃) refl)
    ]
  ]
]

some-injective : {A : Type 0} {a b : A} → some a ≡ some b → a ≡ b
some-injective h = cc

module _ (eth : Ethereum) (laws : EthereumLaws eth) where
  -- No panic, and a result that is encoded to calldata which is decoded to it again.
  abbrev Stable : Outcome SignedAuthorization → Type 0
  Stable r =
      (r ≢ panic)
      × ((signed : SignedAuthorization)
          → r ≡ ok signed
          → (encode_execute_calldata eth signed >>= decode_execute_calldata eth) ≡ ok signed)

  Stable-err : (e : Error) → Stable (err e)
  Stable-err e = (λ no. cc, λ signed no. cc)

  Stable-ok :
      (a : Authorization) (sig : Signature)
      → (encode_execute_calldata eth
            (record { authorization = a; domain = zero_domain; signature = some sig })
          >>= decode_execute_calldata eth)
        ≡ ok (record { authorization = a; domain = zero_domain; signature = some sig })
      → Stable (ok (record { authorization = a; domain = zero_domain; signature = some sig }))
  Stable-ok a sig h = (
    λ no. cc,
    λ signed e.
        subst (λ x. (encode_execute_calldata eth x >>= decode_execute_calldata eth) ≡ ok x)
          (ok-injective _ signed e) h,
  )

  Stable-bind :
      {A : Type 0} (r : Outcome A) (f : A → Outcome SignedAuthorization)
      → r ≢ panic
      → ((x : A) → r ≡ ok x → Stable (f x))
      → Stable (r >>= f)
  Stable-bind (ok x) f calm h = h x refl
  Stable-bind (err e) f calm h = Stable-err e
  Stable-bind panic f calm h = absurd (calm refl)

  late_after :
      (k : AuthorizationKind) (a : Authorization) (sig : Signature)
      → big_to_uint64 (big_value (big a.valid_after)) ≡ err overflows_uint64
      → Stable (decode_transfer eth k (map unpacked (call_values transfer a sig)))
  unfolding decode_transfer as_big
  late_after k a sig late = rw late (Stable-err _)

  late_before :
      (k : AuthorizationKind) (a : Authorization) (sig : Signature)
      → a.valid_after < 2 ^ 64
      → big_to_uint64 (big_value (big a.valid_before)) ≡ err overflows_uint64
      → Stable (decode_transfer eth k (map unpacked (call_values transfer a sig)))
  unfolding decode_transfer as_big
  late_before k a sig early late = rw (fit_uint64-pos a.valid_after early, late) (Stable-err _)

  in_time :
      (a : Authorization) (sig : Signature)
      → MessageFits transfer a
      → SignatureFits sig
      → Stable (decode_transfer eth transfer (map unpacked (call_values transfer a sig)))
        × Stable (decode_transfer eth receive (map unpacked (call_values transfer a sig)))
  in_time a sig f g = (
    subst Stable (sym (decode_transfer-values eth laws transfer a sig f g)) (
        Stable-ok _ sig (
          decode-encode eth laws zero_domain
            (record a { kind = transfer; authorizer = zero_address }) sig tt f g)),
    subst Stable (sym (decode_transfer-values eth laws receive a sig f g)) (
        Stable-ok _ sig (
          decode-encode eth laws zero_domain
            (record a { kind = receive; authorizer = zero_address }) sig tt f g)),
  )

  decode_transfer-Stable :
      (vs : List AbiValue)
      → TransferValues vs
      → Stable (decode_transfer eth transfer vs) × Stable (decode_transfer eth receive vs)
  decode_transfer-Stable vs t = rw t.are (elim (time_cases t.a.valid_after) [
    | inr late ↦ (late_after transfer t.a t.sig late, late_after receive t.a t.sig late)
    | inl early ↦ elim (time_cases t.a.valid_before) [
      | inr late ↦
          (late_before transfer t.a t.sig early late, late_before receive t.a t.sig early late)
      | inl h ↦
          in_time t.a t.sig
            (t.from_fits, t.to_fits, rw t.is_value t.value_fits, early, h, t.nonce_fits) t.sig_fits
    ]
  ])

  decode_cancel-Stable : (vs : List AbiValue) → CancelValues vs → Stable (decode_cancel eth vs)
  unfolding decode_cancel decode_method
  decode_cancel-Stable vs t =
      let a : Authorization = record {
        kind = cancel;
        from = zero_address;
        to = zero_address;
        value = none;
        valid_after = 0;
        valid_before = 0;
        nonce = t.nonce;
        authorizer = t.authorizer;
      } in
      let fits : MessageFits cancel a = (t.authorizer_fits, t.nonce_fits) in
      rw t.are (
        subst Stable (sym (decode_method-values eth laws cancel a t.sig tt fits t.sig_fits))
          (Stable-ok a t.sig (decode-encode eth laws zero_domain a t.sig tt fits t.sig_fits)))

  decode_method-Stable :
      (k : AuthorizationKind) (vs : List AbiValue)
      → IsKnown k
      → AllUnpacked (execute_inputs k) vs
      → Stable (decode_method eth k vs)
  unfolding decode_method
  decode_method-Stable transfer vs h t = (decode_transfer-Stable vs (transfer_values vs t)).0
  decode_method-Stable receive vs h t = (decode_transfer-Stable vs (transfer_values vs t)).1
  decode_method-Stable cancel vs h t = decode_cancel-Stable vs (cancel_values vs t)
  decode_method-Stable (other text) vs h t = absurd h

  -- The unpacked arguments of a method of the interface.
  decode_found-Stable :
      (m : Method) (vs : List AbiValue)
      → find_method eip3009_abi m.name ≡ some m
      → AllUnpacked m.inputs vs
      → Stable (decode_method eth (kind_named m.name) vs)
  unfolding decode_method
  decode_found-Stable m vs is_found typed = elim (method_cases m.name) [
    | inl (k, known, is_named) ↦
        let same : m ≡ method_of k =
          some-injective (sym is_found ∙ ap (find_method eip3009_abi) is_named ∙ found k known) in
        subst (λ n. Stable (decode_method eth (kind_named n) vs)) (sym is_named)
          (subst (λ j. Stable (decode_method eth j vs)) (sym (named k known))
            (decode_method-Stable k vs known
              (subst (λ (x : Method). AllUnpacked x.inputs vs) same typed)))
    | inr is_other ↦ subst (λ j. Stable (decode_method eth j vs)) (sym is_other) (Stable-err _)
  ]

  decode-Stable : (data_bytes : Bytes) → Stable (decode_execute_calldata eth data_bytes)
  unfolding decode_execute_calldata
  decode-Stable data_bytes =
      let id : Bytes = take 4 data_bytes in
      let body : Bytes = drop 4 data_bytes in
      Stable-bind (reject (ltb (length data_bytes) 4) short_calldata) _ (reject_calm _ _) λ done _.
        Stable-bind (eth.method_by_id eip3009_abi id) _ (laws.method_by_id-answers id).0
          λ m is_method.
            Stable-bind (eth.unpack m.inputs body) _ (laws.unpack-answers m.inputs body).0 λ vs are.
              decode_found-Stable m vs ((laws.method_by_id-answers id).1 m is_method)
                ((laws.unpack-answers m.inputs body).1 vs are)

-- `DecodeExecuteCalldata` does not panic, whatever the bytes; and what it returns is encoded to
-- calldata that is decoded to the same signed authorization again.
pub decode_stable :
    (eth : Ethereum) (laws : EthereumLaws eth) (data_bytes : Bytes)
    → (decode_execute_calldata eth data_bytes ≢ panic)
      × ((signed : SignedAuthorization)
          → decode_execute_calldata eth data_bytes ≡ ok signed
          → (encode_execute_calldata eth signed >>= decode_execute_calldata eth) ≡ ok signed)
decode_stable eth laws data_bytes = decode-Stable eth laws data_bytes
