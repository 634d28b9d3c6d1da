-- ===== src/Go/Hex/Range.antt =====
-- What is decoded from hexadecimal digits is bytes.
use eip.Prelude.{
  ℕ, ◌<◌, ◌≡◌, inl, inr, [], ◌∷◌, Option, none, some, arith, Bytes, All, Option-cases,
}
use eip.Outcome.{Answers}
use eip.Go.Hex.{hex_value, hex_byte, decode_pairs, decode_string}

hex_value-lt : (c x : ℕ) → hex_value c ≡ some x → x < 16
unfolding hex_value
hex_value-lt c x h = ground arith

hex_byte-lt : (a b x : ℕ) → hex_byte a b ≡ some x → x < 256
unfolding hex_byte
hex_byte-lt a b x h = elim (Option-cases (hex_value a)) [
  | inl e ↦ ground arith
  | inr (u, e) ↦ elim (Option-cases (hex_value b)) [
    | inl f ↦ ground arith
    | inr (v, f) ↦ let hu = hex_value-lt a u e in let hv = hex_value-lt b v f in ground arith
  ]
]

abbrev AllBytes : Option Bytes → Type 0
AllBytes none = Unit
AllBytes (some s) = All (λ c. c < 256) s

decode_pairs-AllBytes : (s : Bytes) → AllBytes (decode_pairs s)
unfolding decode_pairs
decode_pairs-AllBytes [] = tt
decode_pairs-AllBytes (a ∷ []) = tt
decode_pairs-AllBytes (a ∷ b ∷ s) = elim (Option-cases (hex_byte a b)) [
  | inl e ↦ rw (decode_pairs, e) tt
  | inr (x, e) ↦ elim (Option-cases (decode_pairs s)) [
    | inl f ↦ rw (decode_pairs, e, f) tt
    | inr (xs, f) ↦
        let rest = decode_pairs-AllBytes s in
        rw (decode_pairs, e, f) (hex_byte-lt a b x e, rw f at rest)
  ]
]

pub decode_string-Answers : (s : Bytes) → Answers (All (λ c. c < 256)) (decode_string s)
unfolding decode_string
decode_string-Answers s = elim (Option-cases (decode_pairs s)) [
  | inl e ↦ rw (decode_string, e) tt
  | inr (b, e) ↦ let h = decode_pairs-AllBytes s in rw (decode_string, e) (rw e at h)
]
