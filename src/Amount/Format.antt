-- ===== src/Amount/Format.antt =====
-- `FormatTokenValue` never panics, and prints an amount that stands for the value.
use native.Mathlib.Nat.{one-le-pow, mod-lt, div-add-mod'}
use eip.Prelude.{
  ℕ, zero, suc, ◌+◌, ◌-◌, ◌*◌, ◌/◌, ◌%◌, ◌^◌, ◌≤◌, ◌<◌, ◌≡◌, ◌≢◌, ◌⊎◌, refl, sym, ap, ◌∙◌, inl, inr,
  [], ◌∷◌, ◌++◌, Option, none, some, arith, Bytes, codes, length, length-append, length-replicate,
  replicate, All, All-append, ℤ, pos, sub_ℕ-le, nat_abs, is_negative, if◌then◌else◌,
}
use eip.Outcome.{ok, ◌>>=◌}
use eip.Go.Strings.{trim_right, repeat}
use eip.Go.Big.{digits, to_string}
use eip.Go.Big.Decimal.{IsDigit, value, digits-IsDigit, digits-value, digits-length, digits-cons}
use eip.Amount.{with_fraction, format_scaled, format_token_value, parse_human_amount}
use eip.Amount.Fraction.{
  replicate-IsDigit, value-append-zeros, value-zeros-append, trim_right-split,
}
use eip.Amount.Parse.{point, IsAmount, parse_complete, parse-whole}

All-append_left : (s t : Bytes) → All IsDigit (s ++ t) → All IsDigit s
All-append_left [] t h = tt
All-append_left (c ∷ s) t h = (h.0, All-append_left s t h.1)

-- The part below the point, before its zeros at the end are dropped.
padded : ℕ → ℕ → Bytes
padded d m = replicate (d - length (digits m)) b'0' ++ digits m

-- The fractional digits as they are printed.
fraction_of : ℕ → ℕ → Bytes
fraction_of d m = trim_right (padded d m) b'0'

padded-length : (d m : ℕ) → m < 10 ^ suc d → length (padded (suc d) m) ≡ suc d
unfolding padded
padded-length d m h =
    let k : ℕ = suc d - length (digits m) in
    omega (
      arith,
      digits-length m d h,
      length-append (replicate k b'0') (digits m),
      length-replicate {A = ℕ} k b'0',
    )

padded-value : (d m : ℕ) → value (padded d m) ≡ m
unfolding padded
padded-value d m = value-zeros-append (d - length (digits m)) (digits m) ∙ digits-value m

padded-IsDigit : (d m : ℕ) → All IsDigit (padded d m)
unfolding padded
padded-IsDigit d m =
    All-append IsDigit (replicate (d - length (digits m)) b'0') (digits m) (replicate-IsDigit _)
      (digits-IsDigit m)

-- The printed fraction: digits, at most `d` of them, that stand for `m` units.
record IsFraction (d m : ℕ) (f : Bytes) : Type 0 where
  all_digits : All IsDigit f
  fits : length f ≤ d
  exact : value f * 10 ^ (d - length f) ≡ m

fraction_of-IsFraction : (d m : ℕ) → m < 10 ^ suc d → IsFraction (suc d) m (fraction_of (suc d) m)
unfolding fraction_of
fraction_of-IsFraction d m h =
    let (k, p) = trim_right-split (padded (suc d) m) b'0' in
    let f : Bytes = trim_right (padded (suc d) m) b'0' in
    let sizes : length f + k ≡ suc d = omega (
      arith,
      ap length p,
      padded-length d m h,
      length-append f (replicate k b'0'),
      length-replicate {A = ℕ} k b'0',
    ) in
    let count : suc d - length f ≡ k = omega arith in
    record {
      all_digits = All-append_left f (replicate k b'0') (rw p at (padded-IsDigit (suc d) m));
      fits = omega arith;
      exact = rw count (sym (value-append-zeros f k) ∙ ap value (sym p) ∙ padded-value (suc d) m);
    }

-- The print of a value with at least one decimal.
format_scaled-eq :
    (x : ℤ) (d : ℕ)
    → format_scaled x (suc d)
      ≡ ok (
          with_fraction
            ((if is_negative x then codes "-" else []) ++ digits (nat_abs x / 10 ^ suc d))
            (fraction_of (suc d) (nat_abs x % 10 ^ suc d)))
unfolding format_scaled fraction_of padded repeat
format_scaled-eq x d =
    let m : ℕ = nat_abs x % 10 ^ suc d in
    let small : m < 10 ^ suc d = mod-lt (nat_abs x) (one-le-pow (suc d) 10 (omega arith)) in
    rw (sub_ℕ-le (suc d) (length (digits m)) (digits-length m d small))

-- `FormatTokenValue` returns a text for every value, nil too, and all decimals: the count that it
-- hands to `strings.Repeat` is never negative.
pub format_total : (v : Option ℤ) (d : ℕ) → (s : Bytes) × (format_token_value v d ≡ ok s)
unfolding format_token_value
format_total none d = (codes "0", refl)
format_total (some x) zero = (to_string x, refl)
format_total (some x) (suc d) = (_, format_scaled-eq x d)

with_fraction-spelled :
    (w f : Bytes) → ((with_fraction w f ≡ w) × (f ≡ [])) ⊎ (with_fraction w f ≡ w ++ point ∷ f)
with_fraction-spelled w [] = inl (refl, refl)
with_fraction-spelled w (c ∷ f) = inr refl

with_fraction-ne-nil : (c : ℕ) (w f : Bytes) → with_fraction (c ∷ w) f ≢ []
with_fraction-ne-nil c w [] e = cc
with_fraction-ne-nil c w (b ∷ f) e = cc

printed-IsAmount :
    (n d : ℕ)
    → let scale = 10 ^ suc d in
      let f = fraction_of (suc d) (n % scale) in
      IsAmount (with_fraction (digits (n / scale)) f) (suc d) n (digits (n / scale)) f
printed-IsAmount n d =
    let scale : ℕ = 10 ^ suc d in
    let frac =
      fraction_of-IsFraction d (n % scale) (mod-lt n (one-le-pow (suc d) 10 (omega arith))) in
    let (c, s, e) = digits-cons (n / scale) in
    record {
      spelled = with_fraction-spelled (digits (n / scale)) _;
      not_empty = rw e (with_fraction-ne-nil c s _);
      whole_digits = digits-IsDigit (n / scale);
      fraction_digits = frac.all_digits;
      fits = frac.fits;
      stands_for = rw (digits-value (n / scale), frac.exact) (sym (div-add-mod' n scale));
    }

-- What `FormatTokenValue` prints for a value that is not negative is read back as that value by
-- `parseHumanAmount` under the same decimals.
pub parse-format :
    (n d : ℕ) → (format_token_value (some (pos n)) d >>= λ s. parse_human_amount s d) ≡ ok (pos n)
unfolding format_token_value
parse-format n zero =
    let (c, s, e) = digits-cons n in
    unfold to_string in
    rw (e, parse-whole 0 c s (rw e at (digits-IsDigit n)), ← e, digits-value n) (ground arith)
parse-format n (suc d) =
    rw (format_scaled-eq (pos n) d) (parse_complete _ (suc d) n _ _ (printed-IsAmount n d))
