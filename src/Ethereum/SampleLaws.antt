-- ===== src/Ethereum/SampleLaws.antt =====
-- The sample functions meet the laws.
use mathlib.Core.Path.{subst}
use eip.Prelude.{
  ℕ, length-drop, ltb, le→ltb, ◌^◌, ◌%◌, ◌*◌, ◌≡◌, ◌≢◌, ap, suc, take, drop, refl, inl, inr, List,
  [], ◌∷◌, ◌++◌, map, none, some, arith, Bytes, Bool-cases, bytes_eq, length, length-append,
  get_elem?, replicate, All, take-append, drop-append, length-take, pos, negsuc,
}
use eip.Outcome.{Outcome, ok, err, panic, ok-injective, ◌>>=◌}
use eip.Ethereum.{
  AbiType, address, uint256, bytes32, uint8, AbiValue, address_value, big_value, hash_value,
  uint8_value, Method, Abi, find_method, Fits, AllFit, IsUnpacked, AllUnpacked, bool, string,
  unpacked,
}
use eip.Ethereum.Laws.{IsArray, EthereumLaws}
use eip.Go.Hex.RoundTrip.{decode_pairs-encode_to_string, encode_to_string-IsVisible}
use eip.Go.Strings.Trim.{IsVisible}
use eip.Prelude.{length-replicate, true, ◌<◌}
use eip.Ethereum.Sample.{
  sample_hex, sample_unhex, sample_array, sample_is_address, word, word-length, word_value-word,
  pack_value, unpack_value, pack_values, unpack_values, sample_id, sample_by_id, sample_pack,
  sample_hash, sample_public, sample_result, sample,
}
use eip.Abi.{eip3009_abi}

PackedAs : AbiType → AbiValue → Type 0
PackedAs t v =
    (b : Bytes) × (pack_value t v ≡ ok b) × (length b ≡ 32) × (unpack_value t b ≡ unpacked v)

pack_value-Fits : (t : AbiType) (v : AbiValue) → Fits t v → PackedAs t v
unfolding PackedAs pack_value unpack_value
pack_value-Fits address (address_value a) f = (replicate 12 0 ++ a, refl, omega (arith, f), refl)
pack_value-Fits uint256 (big_value (some (pos n))) f =
    let small : n % 2 ^ 256 ≡ n = omega arith in
    (word 32 n, refl, word-length 32 n, rw (word_value-word 32 n f, small) refl)
pack_value-Fits uint256 (big_value (some (negsuc n))) f = absurd f
pack_value-Fits uint256 (big_value none) f = absurd f
pack_value-Fits bytes32 (hash_value h) f = (h, refl, f, refl)
pack_value-Fits uint8 (uint8_value n) f =
    let small : n % 256 ≡ n = omega arith in
    (word 32 n, refl, word-length 32 n, rw (word_value-word 32 n (omega arith), small) refl)
pack_value-Fits t v f = absurd f

PackedAll : List AbiType → List AbiValue → Type 0
PackedAll ts vs =
    (b : Bytes) × (pack_values ts vs ≡ ok b)
    × (length b ≡ 32 * length ts)
    × (unpack_values ts b ≡ ok (map unpacked vs))

pack_values-fits : (ts : List AbiType) (vs : List AbiValue) → AllFit ts vs → PackedAll ts vs
unfolding PackedAll PackedAs pack_values unpack_values
pack_values-fits [] [] f = ([], refl, refl, refl)
pack_values-fits (t ∷ ts) (v ∷ vs) f =
    let (b, p, n, u) = pack_value-Fits t v f.0 in
    let (bs, ps, ns, us) = pack_values-fits ts vs f.1 in
    (
      b ++ bs,
      rw (p, ps),
      omega (arith, length-append {A = ℕ} b bs),
      rw (
        le→ltb (length (b ++ bs)) 32 (omega (arith, length-append {A = ℕ} b bs, n)),
        drop-append b bs 32 n,
        us,
        take-append b bs 32 n,
        u,
      ),
    )
pack_values-fits [] (v ∷ vs) f = absurd f
pack_values-fits (t ∷ ts) [] f = absurd f

find_method-All :
    (P : Method → Type 0) (abi : Abi) (name : Bytes) (m : Method)
    → All P abi
    → find_method abi name ≡ some m
    → P m
unfolding find_method
find_method-All P [] name m h e = cc
find_method-All P (n ∷ abi) name m h e = elim (Bool-cases (bytes_eq n.name name)) [
  | inl b ↦ subst P (ground arith) h.0
  | inr b ↦ find_method-All P abi name m h.1 (ground arith)
]

ids : All (λ m. sample_by_id eip3009_abi (sample_id m) ≡ ok m) eip3009_abi
unfolding sample_by_id bytes_eq
ids = (refl, (refl, (refl, (refl, (refl, (refl, (refl, tt)))))))

sample_hash-length : (b : Bytes) → length (sample_hash b) ≡ 32
unfolding sample_hash
sample_hash-length b =
    length-take 32 (b ++ replicate 32 0) (omega (arith, length-append {A = ℕ} b (replicate 32 0)))

-- `unpack_values` answers, with a value of each type.
Answered : List AbiType → Outcome (List AbiValue) → Type 0
Answered ts r = (r ≢ panic) × ((vs : List AbiValue) → r ≡ ok vs → AllUnpacked ts vs)

Answered-cons :
    (t : AbiType) (ts : List AbiType) (v : AbiValue) (r : Outcome (List AbiValue))
    → IsUnpacked t v
    → Answered ts r
    → Answered (t ∷ ts) (r >>= λ vs. ok (v ∷ vs))
unfolding Answered
Answered-cons t ts v (ok ws) u h =
    (λ e. cc, λ vs e. subst (λ us. AllUnpacked (t ∷ ts) us) (ok-injective _ vs e) (u, h.1 ws refl))
Answered-cons t ts v (err reason) u h = (λ e. cc, λ vs e. cc)
Answered-cons t ts v panic u h = (λ e. h.0 refl, λ vs e. cc)

unpack_value-IsUnpacked :
    (t : AbiType) (b : Bytes) → length b ≡ 32 → IsUnpacked t (unpack_value t b)
unfolding unpack_value
unpack_value-IsUnpacked address b h = omega (arith, length-drop 12 b, h)
unpack_value-IsUnpacked uint256 b h = omega arith
unpack_value-IsUnpacked bytes32 b h = h
unpack_value-IsUnpacked uint8 b h = omega arith
unpack_value-IsUnpacked bool b h = tt
unpack_value-IsUnpacked string b h = tt

unpack_values-Answered : (ts : List AbiType) (b : Bytes) → Answered ts (unpack_values ts b)
unfolding unpack_values Answered
unpack_values-Answered [] b =
    (λ e. cc, λ vs e. subst (λ us. AllUnpacked [] us) (ok-injective _ vs e) tt)
unpack_values-Answered (t ∷ ts) b = elim (Bool-cases (ltb (length b) 32)) [
  | inl short ↦ rw short (λ e. cc, λ vs e. cc)
  | inr long ↦ rw long (
      Answered-cons t ts (unpack_value t (take 32 b)) (unpack_values ts (drop 32 b))
        (unpack_value-IsUnpacked t (take 32 b) (length-take 32 b (ground arith)))
        (unpack_values-Answered ts (drop 32 b)))
]

AllUnpacked-length :
    (ts : List AbiType) (vs : List AbiValue) → AllUnpacked ts vs → length vs ≡ length ts
AllUnpacked-length [] [] h = refl
AllUnpacked-length (t ∷ ts) (v ∷ vs) h = ap suc (AllUnpacked-length ts vs h.1)
AllUnpacked-length [] (v ∷ vs) h = absurd h
AllUnpacked-length (t ∷ ts) [] h = absurd h

sample_by_id-All :
    (P : Method → Type 0) (abi : Abi) (id : Bytes)
    → All P abi
    → (sample_by_id abi id ≢ panic) × ((m : Method) → sample_by_id abi id ≡ ok m → P m)
unfolding sample_by_id
sample_by_id-All P [] id h = (λ e. cc, λ m e. cc)
sample_by_id-All P (n ∷ abi) id h = elim (Bool-cases (bytes_eq (sample_id n) id)) [
  | inl b ↦ rw b (λ e. cc, λ m e. subst P (ok-injective n m e) h.0)
  | inr b ↦ rw b (sample_by_id-All P abi id h.1)
]

names : All (λ m. find_method eip3009_abi m.name ≡ some m) eip3009_abi
unfolding find_method bytes_eq
names = (refl, (refl, (refl, (refl, (refl, (refl, (refl, tt)))))))

sample_result-Answered :
    (abi : Abi) (name : Bytes) (m : Method) (b : Bytes)
    → find_method abi name ≡ some m
    → (sample_result abi name b ≢ panic)
      × ((vs : List AbiValue) → sample_result abi name b ≡ ok vs → length vs ≡ length m.outputs)
unfolding sample_result Answered
sample_result-Answered abi name m b e =
    let (calm, typed) = unpack_values-Answered m.outputs b in
    rw (sample_result, e) (calm, λ vs h. AllUnpacked-length m.outputs vs (typed vs h))

sample_unhex-hex : (b : Bytes) → All (λ c. c < 256) b → sample_unhex (sample_hex b) ≡ b
unfolding sample_unhex sample_hex
sample_unhex-hex b h = rw (sample_unhex, decode_pairs-encode_to_string b h) refl

sample_array-hex : (n : ℕ) (b : Bytes) → IsArray n b → sample_array n (sample_hex b) ≡ b
unfolding sample_array
sample_array-hex n b (e, h) =
    rw (sample_array, sample_unhex-hex b h, take-append b (replicate n 0) n e)

sample_array-length : (n : ℕ) (s : Bytes) → length (sample_array n s) ≡ n
unfolding sample_array
sample_array-length n s = length-take n (sample_unhex s ++ replicate n 0) (
    omega
      (arith, length-append {A = ℕ} (sample_unhex s) (replicate n 0), length-replicate {A = ℕ} n 0))

sample_is_address-hex : (b : Bytes) → IsArray 20 b → sample_is_address (sample_hex b) ≡ true
unfolding sample_is_address
sample_is_address-hex b (n, h) = rw (sample_unhex-hex b h, n) refl

sample_hex-IsVisible : (b : Bytes) → All (λ c. c < 256) b → All IsVisible (sample_hex b)
unfolding sample_hex
sample_hex-IsVisible b h = ((omega arith), ((omega arith), encode_to_string-IsVisible b h))

pub sample_laws : EthereumLaws sample
unfolding sample PackedAll Answered
sample_laws = record {
  keccak256-length = sample_hash-length;
  bytes_to_hash-length = λ b h. take-append b (replicate 32 0) 32 h;
  address_hex-IsVisible = λ a h. sample_hex-IsVisible a h.1;
  is_hex_address-address_hex = sample_is_address-hex;
  hex_to_address-address_hex = sample_array-hex 20;
  hash_hex-digits = λ a h. refl;
  hex_to_hash-hash_hex = sample_array-hex 32;
  hex_to_address-length = sample_array-length 20;
  hex_to_hash-length = sample_array-length 32;
  sign-length = λ h k sig e. subst (λ (t : Bytes). length t ≡ 65) (ok-injective _ sig e) refl;
  sign-v = λ h k sig v e i.
      let zero_v : get_elem? sig 64 ≡ some 0 =
        subst (λ (t : Bytes). get_elem? t 64 ≡ some 0) (ok-injective _ sig e) refl in
      ground arith;
  sig_to_pub-sign = λ h k sig e.
      subst (λ (t : Bytes). sample_public h t ≡ ok k.public_key) (ok-injective _ sig e) refl;
  pack-fits = pack_values-fits;
  method_id-length = λ m. refl;
  pack-selector = λ abi name m vs e. rw (e, sample_pack);
  method_by_id-selector = λ name m e.
      find_method-All (λ m. sample_by_id eip3009_abi (sample_id m) ≡ ok m) eip3009_abi name m ids e;
  method_by_id-answers =
      λ id. sample_by_id-All (λ m. find_method eip3009_abi m.name ≡ some m) eip3009_abi id names;
  unpack-answers = unpack_values-Answered;
  unpack_result-answers = sample_result-Answered;
}
