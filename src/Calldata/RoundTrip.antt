-- ===== src/Calldata/RoundTrip.antt =====
-- Calldata that was encoded is decoded to the fields that it carries.
use eip.Prelude.{
  ℕ, ◌^◌, ◌<◌, ◌≡◌, refl, List, [], ◌∷◌, ◌++◌, map, none, some, arith, Bytes, bytes_eq, le→ltb,
  length, length-append, take-append, drop-append,
}
use eip.Outcome.{ok, ◌>>=◌}
use eip.Go.Big.{is_uint64, uint64}
use eip.Types.{
  zero_address, AuthorizationKind, transfer, receive, cancel, other, kind_text, Domain,
  Authorization, Signature, SignedAuthorization,
}
use eip.Ethereum.{
  Ethereum, address, uint256, bytes32, uint8, AbiType, AbiValue, Method, AllFit, unpacked,
  find_method, big_value, array_value,
}
use eip.Ethereum.Laws.{EthereumLaws}
use eip.Abi.{eip3009_abi}
use eip.Eip712.{big}
use eip.Eip712.Fields.{MessageFits, IsKnown}
use eip.Calldata.{
  kind_named, zero_domain, call_values, as_address, as_uint8, as_big, big_to_uint64, fit_uint64,
  bytes32_to_hash, encode_kind, encode_execute_calldata, decode_transfer, decode_cancel,
  decode_method, decode_execute_calldata,
}

-- The fields that the calldata of a kind carries; the others are at their zero values.
abbrev pub carried : AuthorizationKind → Authorization → Authorization
carried cancel a = record {
  kind = cancel;
  from = zero_address;
  to = zero_address;
  value = none;
  valid_after = 0;
  valid_before = 0;
  nonce = a.nonce;
  authorizer = a.authorizer;
}
carried k a = record a { kind = k; authorizer = zero_address }

abbrev pub SignatureFits : Signature → Type 0
SignatureFits sig = (sig.v < 256) × (length sig.r ≡ 32) × (length sig.s ≡ 32)

pub fit_uint64-pos : (n : ℕ) → n < 2 ^ 64 → big_to_uint64 (big_value (big n)) ≡ ok n
unfolding big_to_uint64 fit_uint64 is_uint64 uint64
fit_uint64-pos n h = ground arith

abbrev pub execute_inputs : AuthorizationKind → List AbiType
execute_inputs cancel = address ∷ bytes32 ∷ uint8 ∷ bytes32 ∷ bytes32 ∷ []
execute_inputs _ =
    address ∷ address ∷ uint256 ∷ uint256 ∷ uint256 ∷ bytes32 ∷ uint8 ∷ bytes32 ∷ bytes32 ∷ []

-- The method that is called for a kind.
abbrev pub method_of : AuthorizationKind → Method
method_of k = record { name = kind_text k; inputs = execute_inputs k; outputs = [] }

pub found :
    (k : AuthorizationKind) → IsKnown k → find_method eip3009_abi (kind_text k) ≡ some (method_of k)
unfolding find_method kind_text bytes_eq
found transfer h = refl
found receive h = refl
found cancel h = refl
found (other t) h = absurd h

pub named : (k : AuthorizationKind) → IsKnown k → kind_named (kind_text k) ≡ k
unfolding kind_named kind_text bytes_eq
named transfer h = refl
named receive h = refl
named cancel h = refl
named (other t) h = absurd h

call-AllFit :
    (k : AuthorizationKind) (a : Authorization) (sig : Signature)
    → MessageFits k a
    → SignatureFits sig
    → AllFit (execute_inputs k) (call_values k a sig)
call-AllFit cancel a sig f g = (f.0, (f.1, (g.0, (g.1, (g.2, tt)))))
call-AllFit _ a sig f g =
    (f.0, (f.1, (f.2, (omega arith, (omega arith, (f.5, (g.0, (g.1, (g.2, tt)))))))))

module _ (eth : Ethereum) (laws : EthereumLaws eth) where
  kept : (h : Bytes) → length h ≡ 32 → bytes32_to_hash eth (array_value h) ≡ h
  unfolding bytes32_to_hash
  kept h n = laws.bytes_to_hash-length h n

  abbrev result : AuthorizationKind → Authorization → Signature → SignedAuthorization
  result k a sig = record {
    authorization = carried k a;
    domain = zero_domain;
    signature = some sig;
  }

  pub decode_transfer-values :
      (k : AuthorizationKind) (a : Authorization) (sig : Signature)
      → MessageFits transfer a
      → SignatureFits sig
      → decode_transfer eth k (map unpacked (call_values transfer a sig))
        ≡ ok (record {
          authorization = record a { kind = k; authorizer = zero_address };
          domain = zero_domain;
          signature = some sig;
        })
  unfolding decode_transfer as_address as_uint8 as_big
  decode_transfer-values k a sig f g = rw (
    fit_uint64-pos a.valid_after f.3,
    fit_uint64-pos a.valid_before f.4,
    kept a.nonce f.5,
    kept sig.r g.1,
    kept sig.s g.2,
  )

  pub decode_method-values :
      (k : AuthorizationKind) (a : Authorization) (sig : Signature)
      → IsKnown k
      → MessageFits k a
      → SignatureFits sig
      → decode_method eth k (map unpacked (call_values k a sig)) ≡ ok (result k a sig)
  unfolding decode_method decode_cancel as_address as_uint8
  decode_method-values transfer a sig _ f g = decode_transfer-values transfer a sig f g
  decode_method-values receive a sig _ f g = decode_transfer-values receive a sig f g
  decode_method-values cancel a sig _ f g = rw (kept a.nonce f.1, kept sig.r g.1, kept sig.s g.2)
  decode_method-values (other t) a sig h f g = absurd h

  decode-selector :
      (k : AuthorizationKind) (b : Bytes) (vs : List AbiValue)
      → IsKnown k
      → eth.unpack (execute_inputs k) b ≡ ok vs
      → decode_execute_calldata eth (eth.method_id (method_of k) ++ b) ≡ decode_method eth k vs
  unfolding decode_execute_calldata
  decode-selector k b vs h u =
      let id : Bytes = eth.method_id (method_of k) in
      let four : length id ≡ 4 = laws.method_id-length (method_of k) in
      rw (
        le→ltb (length (id ++ b)) 4 (omega (arith, length-append {A = ℕ} id b)),
        take-append id b 4 four,
        drop-append id b 4 four,
        laws.method_by_id-selector (kind_text k) (method_of k) (found k h),
        u,
        named k h,
      )

  encode_kind-pack :
      (k : AuthorizationKind) (a : Authorization) (sig : Signature)
      → IsKnown k
      → encode_kind eth k a (some sig) ≡ eth.pack eip3009_abi (kind_text k) (call_values k a sig)
  unfolding encode_kind
  encode_kind-pack (other t) a sig h = absurd h
  encode_kind-pack _ a sig h = refl

  decode-encode_kind :
      (k : AuthorizationKind) (a : Authorization) (sig : Signature)
      → IsKnown k
      → MessageFits k a
      → SignatureFits sig
      → (encode_kind eth k a (some sig) >>= decode_execute_calldata eth) ≡ ok (result k a sig)
  decode-encode_kind k a sig h f g =
      let (b, packed, _, u) =
        laws.pack-fits (execute_inputs k) (call_values k a sig) (call-AllFit k a sig f g) in
      rw (
        encode_kind-pack k a sig h,
        laws.pack-selector eip3009_abi (kind_text k) (method_of k) (call_values k a sig)
            (found k h),
        packed,
        decode-selector k b (map unpacked (call_values k a sig)) h u,
        decode_method-values k a sig h f g,
      )

  -- The calldata of a signed authorization of one of the three kinds, whose message fields (the value
  -- not negative and below 2^256) and signature fit their ABI types, is decoded to the same kind,
  -- signature and message fields; the domain, and the message fields that the calldata of the kind does
  -- not carry, come back as zero values.
  pub decode-encode :
      (d : Domain) (a : Authorization) (sig : Signature)
      → IsKnown a.kind
      → MessageFits a.kind a
      → SignatureFits sig
      → (encode_execute_calldata eth
            (record { authorization = a; domain = d; signature = some sig })
          >>= decode_execute_calldata eth)
        ≡ ok (record {
          authorization = carried a.kind a;
          domain = zero_domain;
          signature = some sig;
        })
  unfolding encode_execute_calldata
  decode-encode d a sig h f g = decode-encode_kind a.kind a sig h f g
