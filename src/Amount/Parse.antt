-- ===== src/Amount/Parse.antt =====
-- Which amounts `parseHumanAmount` accepts, and what it makes of them.
use eip.Prelude.{
  ℕ, ◌+◌, ◌-◌, ◌*◌, ◌^◌, ◌≤◌, ◌≡◌, ◌≢◌, ◌⊎◌, refl, sym, ◌∙◌, true, false, inl, inr, [], ◌∷◌, ◌++◌,
  none, some, arith, Bytes, codes, le→ltb, ne→==, not, ◌&&◌, Option-cases, length, replicate, All,
  All-append, ℤ, pos, sub_ℕ-le, ◌+ℤ◌, ◌*ℤ◌,
}
use eip.Outcome.{ok}
use eip.Go.Strings.{cut, split_two, count, has_prefix, repeat}
use eip.Go.Big.Decimal.{IsDigit, value, set_string-value}
use eip.Amount.{
  is_empty, all_digits, is_decimal_digits, add_fractional, from_parts, parse_human_amount,
}
use eip.Amount.Fraction.{value-append-zeros, replicate-IsDigit}

abbrev pub point : ℕ
point = b'.'

-- An amount: digits, then perhaps a point and at most `decimals` digits more, and not nothing at
-- all. `value` is the number in the smallest unit that it stands for.
pub record IsAmount (amount : Bytes) (decimals : ℕ) (v : ℕ) (whole fraction : Bytes) : Type 0 where
  pub spelled : ((amount ≡ whole) × (fraction ≡ [])) ⊎ (amount ≡ whole ++ point ∷ fraction)
  pub not_empty : amount ≢ []
  pub whole_digits : All IsDigit whole
  pub fraction_digits : All IsDigit fraction
  pub fits : length fraction ≤ decimals
  pub stands_for :
      v ≡ value whole * 10 ^ decimals + value fraction * 10 ^ (decimals - length fraction)

ne-nil-cons : (s : Bytes) → s ≢ [] → (c : ℕ) × (t : Bytes) × (s ≡ c ∷ t)
ne-nil-cons [] h = absurd (h refl)
ne-nil-cons (c ∷ t) h = (c, t, refl)

is_empty-append : (w : Bytes) (c : ℕ) (f : Bytes) → is_empty (w ++ c ∷ f) ≡ false
is_empty-append [] c f = refl
is_empty-append (b ∷ w) c f = refl

cut-digits : (w : Bytes) → All IsDigit w → cut w point ≡ none
unfolding cut
cut-digits [] h = refl
cut-digits (c ∷ w) h = ground (arith, cut-digits w h.1)

cut-point : (w f : Bytes) → All IsDigit w → cut (w ++ point ∷ f) point ≡ some (w, f)
unfolding cut
cut-point [] f h = refl
cut-point (c ∷ w) f h = ground (arith, cut-point w f h.1)

split_two-digits : (w : Bytes) → All IsDigit w → split_two w point ≡ w ∷ []
unfolding split_two
split_two-digits w h = rw (cut-digits w h, split_two)

split_two-point : (w f : Bytes) → All IsDigit w → split_two (w ++ point ∷ f) point ≡ w ∷ f ∷ []
unfolding split_two
split_two-point w f h = rw (cut-point w f h, split_two)

count-digits : (w : Bytes) → All IsDigit w → count w point ≡ 0
unfolding count
count-digits [] h = refl
count-digits (c ∷ w) h = ground (arith, count-digits w h.1)

count-point : (w f : Bytes) → All IsDigit w → All IsDigit f → count (w ++ point ∷ f) point ≡ 1
unfolding count
count-point [] f h k = ground (arith, count-digits f k)
count-point (c ∷ w) f h k = ground (arith, count-point w f h.1 k)

all_digits_complete : (s : Bytes) → All IsDigit s → all_digits s ≡ true
unfolding all_digits
all_digits_complete [] h = refl
all_digits_complete (c ∷ s) h = ground (arith, all_digits_complete s h.1)

all_digits-sound : (s : Bytes) → all_digits s ≡ true → All IsDigit s
unfolding all_digits
all_digits-sound [] h = tt
all_digits-sound (c ∷ s) h = ground (arith, all_digits-sound s)

is_decimal_digits_complete :
    (c : ℕ) (s : Bytes) → All IsDigit (c ∷ s) → is_decimal_digits (c ∷ s) ≡ true
unfolding is_decimal_digits
is_decimal_digits_complete c s h = all_digits_complete (c ∷ s) h

-- The test of the fractional part passes on digits, and on no digits at all.
fraction_test_complete :
    (f : Bytes) → All IsDigit f → (not (is_empty f) && not (is_decimal_digits f)) ≡ false
fraction_test_complete [] h = refl
fraction_test_complete (c ∷ s) h = rw (is_decimal_digits_complete c s h)

filled-IsDigit : (f : Bytes) (k : ℕ) → All IsDigit f → All IsDigit (f ++ replicate k b'0')
filled-IsDigit f k h = All-append IsDigit f (replicate k b'0') h (replicate-IsDigit k)

add_fractional_complete :
    (amount : Bytes) (d n : ℕ) (f : Bytes)
    → All IsDigit f
    → length f ≤ d
    → add_fractional amount d (pos n) f ≡ ok (pos (n + value f * 10 ^ (d - length f)))
unfolding add_fractional repeat ◌+ℤ◌
add_fractional_complete amount d n [] h le = ground arith
add_fractional_complete amount d n (c ∷ s) h le =
    let k : ℕ = d - length (c ∷ s) in
    rw (
      sub_ℕ-le d (length (c ∷ s)) le,
      set_string-value c (s ++ replicate k b'0') (filled-IsDigit (c ∷ s) k h),
      value-append-zeros (c ∷ s) k,
    )

from_parts-digits :
    (amount : Bytes) (d c : ℕ) (w f : Bytes)
    → All IsDigit (c ∷ w)
    → All IsDigit f
    → length f ≤ d
    → from_parts amount d (c ∷ w) f
      ≡ ok (pos (value (c ∷ w) * 10 ^ d + value f * 10 ^ (d - length f)))
unfolding from_parts ◌*ℤ◌
from_parts-digits amount d c w f hw hf le =
    rw
      (
        is_decimal_digits_complete c w hw,
        fraction_test_complete f hf,
        le→ltb d (length f) le,
        set_string-value c w hw,
      )
      (add_fractional_complete amount d (value (c ∷ w) * 10 ^ d) f hf le)

from_parts_complete :
    (amount : Bytes) (d : ℕ) (w f : Bytes)
    → All IsDigit w
    → All IsDigit f
    → length f ≤ d
    → from_parts amount d w f ≡ ok (pos (value w * 10 ^ d + value f * 10 ^ (d - length f)))
unfolding from_parts
from_parts_complete amount d [] f hw hf le =
    from_parts-digits amount d b'0' [] f (omega arith) hf le
from_parts_complete amount d (c ∷ w) f hw hf le = from_parts-digits amount d c w f hw hf le

not_minus : (w f : Bytes) → All IsDigit w → has_prefix (w ++ point ∷ f) (codes "-") ≡ false
unfolding has_prefix
not_minus [] f h = refl
not_minus (c ∷ w) f h = ground arith

-- The value of an amount with a point.
pub parse-point :
    (d : ℕ) (w f : Bytes)
    → All IsDigit w
    → All IsDigit f
    → length f ≤ d
    → parse_human_amount (w ++ point ∷ f) d
      ≡ ok (pos (value w * 10 ^ d + value f * 10 ^ (d - length f)))
unfolding parse_human_amount
parse-point d w f hw hf le =
    rw (is_empty-append w point f, not_minus w f hw, count-point w f hw hf, split_two-point w f hw)
      (from_parts_complete (w ++ point ∷ f) d w f hw hf le)

-- The value of an amount without one.
pub parse-whole :
    (d c : ℕ) (w : Bytes)
    → All IsDigit (c ∷ w)
    → parse_human_amount (c ∷ w) d ≡ ok (pos (value (c ∷ w) * 10 ^ d))
unfolding parse_human_amount has_prefix
parse-whole d c w h =
    rw (ne→== c b'-' (omega arith), count-digits (c ∷ w) h, split_two-digits (c ∷ w) h)
      (from_parts_complete (c ∷ w) d (c ∷ w) [] h tt (omega arith) ∙ ground arith)

-- Every amount in the sense of `IsAmount` is accepted, at the value that it stands for.
pub parse_complete :
    (amount : Bytes) (d v : ℕ) (w f : Bytes)
    → IsAmount amount d v w f
    → parse_human_amount amount d ≡ ok (pos v)
parse_complete amount d v w f a = elim a.spelled [
  | inl (e, no_fraction) ↦
      let (c, s, p) = ne-nil-cons amount a.not_empty in
      let q : w ≡ c ∷ s = sym e ∙ p in
      rw (p, parse-whole d c s (rw q at a.whole_digits), a.stands_for, no_fraction, q)
        (ground arith)
  | inr e ↦ rw (e, parse-point d w f a.whole_digits a.fraction_digits a.fits, a.stands_for)
]

-- What stands before and behind the first point spells the text.
cut_sound : (s a b : Bytes) → cut s point ≡ some (a, b) → s ≡ a ++ point ∷ b
unfolding cut
cut_sound [] a b h = cc
cut_sound (c ∷ s) a b h = elim (Option-cases (cut s point)) [
  | inl e ↦ ground arith
  | inr ((a', b'), e) ↦ ground (arith, cut_sound s a' b' e)
]

is_decimal_digits-sound : (s : Bytes) → is_decimal_digits s ≡ true → All IsDigit s
unfolding is_decimal_digits
is_decimal_digits-sound [] h = cc
is_decimal_digits-sound (c ∷ s) h = all_digits-sound (c ∷ s) h

from_parts_sound :
    (amount : Bytes) (d : ℕ) (w f : Bytes) (x : ℤ)
    → from_parts amount d w f ≡ ok x
    → All IsDigit w × All IsDigit f × (length f ≤ d)
unfolding from_parts
from_parts_sound amount d [] [] x h = (tt, tt, omega arith)
from_parts_sound amount d [] (b ∷ f) x h = ground (arith, is_decimal_digits-sound (b ∷ f))
from_parts_sound amount d (c ∷ w) [] x h = ground (arith, is_decimal_digits-sound (c ∷ w))
from_parts_sound amount d (c ∷ w) (b ∷ f) x h =
    ground (arith, is_decimal_digits-sound (c ∷ w), is_decimal_digits-sound (b ∷ f))

-- The text that an accepted amount is, and its value.
abbrev pub Accepted : Bytes → ℕ → ℤ → Type 0
Accepted amount d x = (w : Bytes) × (f : Bytes) × (v : ℕ) × IsAmount amount d v w f × (x ≡ pos v)

accept :
    (amount : Bytes) (d : ℕ) (x : ℤ) (w f : Bytes)
    → ((amount ≡ w) × (f ≡ [])) ⊎ (amount ≡ w ++ point ∷ f)
    → amount ≢ []
    → from_parts amount d w f ≡ ok x
    → Accepted amount d x
accept amount d x w f spelled ne h =
    let (hw, hf, le) = from_parts_sound amount d w f x h in
    (
      w,
      f,
      value w * 10 ^ d + value f * 10 ^ (d - length f),
      record {
        spelled = spelled;
        not_empty = ne;
        whole_digits = hw;
        fraction_digits = hf;
        fits = le;
        stands_for = refl;
      },
      cc (h, from_parts_complete amount d w f hw hf le),
    )

-- `parseHumanAmount` accepts nothing but amounts in the sense of `IsAmount`, at their value.
pub parse_sound :
    (amount : Bytes) (d : ℕ) (x : ℤ) → parse_human_amount amount d ≡ ok x → Accepted amount d x
unfolding parse_human_amount split_two
parse_sound [] d x h = cc
parse_sound (c ∷ s) d x h = elim (Option-cases (cut (c ∷ s) point)) [
  | inl e ↦ accept (c ∷ s) d x (c ∷ s) [] (inl (refl, refl)) (cc) (ground arith)
  | inr ((a, b), e) ↦ accept (c ∷ s) d x a b (inr (cut_sound (c ∷ s) a b e)) (cc) (ground arith)
]
