-- ===== src/Amount/Fraction.antt =====
-- Zeros in front of, behind and at the end of a row of digits.
use native.Mathlib.Nat.{pow-suc}
use eip.Prelude.{
  ℕ, zero, suc, ◌+◌, ◌-◌, ◌*◌, ◌^◌, ◌≡◌, refl, sym, ap, ◌∙◌, inl, inr, [], ◌∷◌, ◌++◌, reverse,
  reverse-append, reverse-reverse, arith, Bytes, ◌==◌, Bool-cases, replicate, All,
}
use eip.Go.Strings.{drop_all, trim_right}
use eip.Go.Big.Decimal.{IsDigit, value_from, value, value_from-append}

pub replicate-IsDigit : (k : ℕ) → All IsDigit (replicate k b'0')
replicate-IsDigit zero = tt
replicate-IsDigit (suc k) = (omega arith, replicate-IsDigit k)

-- Zeros behind digits scale the number by powers of ten.
value_from-zeros : (n k : ℕ) → value_from n (replicate k b'0') ≡ n * 10 ^ k
value_from-zeros n zero = omega arith
value_from-zeros n (suc k) =
    value_from-zeros (n * 10 + (b'0' - b'0')) k
    ∙ omega (arith, ap (λ (t : ℕ). n * t) (pow-suc 10 k))

pub value-append-zeros : (s : Bytes) (k : ℕ) → value (s ++ replicate k b'0') ≡ value s * 10 ^ k
value-append-zeros s k = value_from-append 0 s (replicate k b'0') ∙ value_from-zeros (value s) k

-- Zeros in front do not count.
pub value-zeros-append : (k : ℕ) (s : Bytes) → value (replicate k b'0' ++ s) ≡ value s
value-zeros-append zero s = refl
value-zeros-append (suc k) s = value-zeros-append k s

replicate-snoc : (k b : ℕ) → replicate k b ++ b ∷ [] ≡ b ∷ replicate k b
replicate-snoc zero b = refl
replicate-snoc (suc k) b = ap (◌∷◌ b) (replicate-snoc k b)

reverse-replicate : (k b : ℕ) → reverse (replicate k b) ≡ replicate k b
reverse-replicate zero b = refl
reverse-replicate (suc k) b =
    reverse-append (b ∷ []) (replicate k b)
    ∙ ap (λ (t : Bytes). t ++ b ∷ []) (reverse-replicate k b)
    ∙ replicate-snoc k b

-- What `drop_all` leaves, behind the bytes that it drops.
drop_all-split : (b : ℕ) (s : Bytes) → (k : ℕ) × (s ≡ replicate k b ++ drop_all b s)
unfolding drop_all
drop_all-split b [] = (0, refl)
drop_all-split b (c ∷ s) = elim (Bool-cases (c == b)) [
  | inl e ↦
      let (k, p) = drop_all-split b s in
      let same : c ≡ b = ground arith in (suc k, rw (e, drop_all) (cc (p, same)))
  | inr e ↦ (0, rw (e, drop_all))
]

-- A text is what `strings.TrimRight` leaves, with some more of the byte behind it.
pub trim_right-split : (s : Bytes) (b : ℕ) → (k : ℕ) × (s ≡ trim_right s b ++ replicate k b)
unfolding trim_right
trim_right-split s b =
    let (k, p) = drop_all-split b (reverse s) in
    (
      k,
      sym (reverse-reverse s)
          ∙ ap reverse p
          ∙ reverse-append (replicate k b) (drop_all b (reverse s))
          ∙ ap (λ (t : Bytes). reverse (drop_all b (reverse s)) ++ t) (reverse-replicate k b),
    )
