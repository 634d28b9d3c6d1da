-- ===== src/Go/Big/Decimal.antt =====
-- The decimal print of a number is made of digits, spells the number, and is read back.
use eip.Prelude.{
  ℕ, zero, suc, ◌+◌, ◌-◌, ◌*◌, ◌/◌, ◌%◌, ◌^◌, ◌≤◌, ◌<◌, ◌≡◌, refl, ◌∙◌, inl, inr, [], ◌∷◌, ◌++◌,
  some, arith, Bytes, ltb, Bool-cases, lt→ltb, length, length-append, All, All-append, ℤ, pos,
  negsuc,
}
use native.Mathlib.Nat.{pow-suc}
use eip.Go.Big.{digits_fuel, digits, to_string, scan, scan_digits, set_string}

-- A list with one more element at its end begins with some element.
pub snoc-cons : (xs : Bytes) (y : ℕ) → (c : ℕ) × (s : Bytes) × (xs ++ y ∷ [] ≡ c ∷ s)
snoc-cons [] y = (y, [], refl)
snoc-cons (x ∷ xs) y = (x, xs ++ y ∷ [], refl)

abbrev pub IsDigit : ℕ → Type 0
IsDigit c = (b'0' ≤ c) × (c ≤ b'9')

-- The number that digits spell behind `n`.
abbrev pub value_from : ℕ → Bytes → ℕ
value_from n [] = n
value_from n (c ∷ s) = value_from (n * 10 + (c - b'0')) s

abbrev pub value : Bytes → ℕ
value s = value_from 0 s

pub value_from-append :
    (n : ℕ) (s t : Bytes) → value_from n (s ++ t) ≡ value_from (value_from n s) t
value_from-append n [] t = refl
value_from-append n (c ∷ s) t = value_from-append (n * 10 + (c - b'0')) s t

digits_fuel-IsDigit : (f n : ℕ) → All IsDigit (digits_fuel f n)
unfolding digits_fuel
digits_fuel-IsDigit zero n = tt
digits_fuel-IsDigit (suc f) n = elim (Bool-cases (ltb n 10)) [
  | inl e ↦ rw (e, digits_fuel) (ground arith)
  | inr e ↦
      rw (e, digits_fuel)
        (All-append IsDigit (digits_fuel f (n / 10)) _ (digits_fuel-IsDigit f (n / 10))
          (omega arith))
]

digits_fuel-value : (f n : ℕ) → n < f → value (digits_fuel f n) ≡ n
unfolding digits_fuel
digits_fuel-value zero n h = absurd (omega arith)
digits_fuel-value (suc f) n h = elim (Bool-cases (ltb n 10)) [
  | inl e ↦ rw (e, digits_fuel) (omega arith)
  | inr e ↦
      rw (e, digits_fuel)
        (value_from-append 0 (digits_fuel f (n / 10)) _
          ∙ (let ih : value (digits_fuel f (n / 10)) ≡ n / 10 =
                digits_fuel-value f (n / 10) (ground arith) in
              omega arith))
]

-- With less than `10 ^ d` there are at most `d` digits.
digits_fuel-length : (f n d : ℕ) → n < 10 ^ suc d → length (digits_fuel f n) ≤ suc d
unfolding digits_fuel
digits_fuel-length zero n d h = omega arith
digits_fuel-length (suc f) n zero h =
    let small : n < 10 = omega arith in rw (lt→ltb n 10 small, digits_fuel) (omega arith)
digits_fuel-length (suc f) n (suc d) h = elim (Bool-cases (ltb n 10)) [
  | inl e ↦ rw (e, digits_fuel) (omega arith)
  | inr e ↦
      rw (e, digits_fuel)
        (let tenth : n / 10 < 10 ^ suc d = omega (arith, pow-suc 10 (suc d)) in
          omega (
            arith,
            digits_fuel-length f (n / 10) d tenth,
            length-append (digits_fuel f (n / 10)) ((b'0' + n % 10) ∷ []),
          ))
]

digits_fuel-cons : (f n : ℕ) → (c : ℕ) × (s : Bytes) × (digits_fuel (suc f) n ≡ c ∷ s)
unfolding digits_fuel
digits_fuel-cons f n = elim (Bool-cases (ltb n 10)) [
  | inl e ↦ (b'0' + n, [], rw (e, digits_fuel))
  | inr e ↦
      let (c, s, p) = snoc-cons (digits_fuel f (n / 10)) (b'0' + n % 10) in
      (c, s, rw (e, digits_fuel) p)
]

pub digits-IsDigit : (n : ℕ) → All IsDigit (digits n)
unfolding digits
digits-IsDigit n = digits_fuel-IsDigit (suc n) n

pub digits-value : (n : ℕ) → value (digits n) ≡ n
unfolding digits
digits-value n = digits_fuel-value (suc n) n (omega arith)

pub digits-length : (n d : ℕ) → n < 10 ^ suc d → length (digits n) ≤ suc d
unfolding digits
digits-length n d h = digits_fuel-length (suc n) n d h

-- A print has a first digit.
pub digits-cons : (n : ℕ) → (c : ℕ) × (s : Bytes) × (digits n ≡ c ∷ s)
unfolding digits
digits-cons n = digits_fuel-cons n n

-- Digits are read as the number that they spell.
pub scan-value : (n : ℕ) (s : Bytes) → All IsDigit s → scan 10 n s ≡ some (value_from n s)
unfolding scan
scan-value n [] h = refl
scan-value n (c ∷ s) h = ground (arith, scan-value (n * 10 + (c - b'0')) s h.1)

-- Only digits are read in base ten.
scan-IsDigit : (n : ℕ) (s : Bytes) (r : ℕ) → scan 10 n s ≡ some r → All IsDigit s
unfolding scan
scan-IsDigit n [] r h = tt
scan-IsDigit n (c ∷ s) r h = ground (arith, scan-IsDigit (n * 10 + (c - b'0')) s r)

pub scan_digits-value :
    (c : ℕ) (s : Bytes) → All IsDigit (c ∷ s) → scan_digits 10 (c ∷ s) ≡ some (value (c ∷ s))
unfolding scan_digits
scan_digits-value c s h = scan-value 0 (c ∷ s) h

scan_digits-digits : (n : ℕ) → scan_digits 10 (digits n) ≡ some n
scan_digits-digits n =
    let (c, s, e) = digits-cons n in
    rw (e, scan_digits-value c s (rw e at (digits-IsDigit n)), ← e, digits-value n)

pub set_string-value :
    (c : ℕ) (s : Bytes) → All IsDigit (c ∷ s) → set_string 10 (c ∷ s) ≡ some (pos (value (c ∷ s)))
unfolding set_string
set_string-value c s h = ground (arith, scan_digits-value c s h)

pub set_string-digits : (n : ℕ) → set_string 10 (digits n) ≡ some (pos n)
set_string-digits n =
    let (c, s, e) = digits-cons n in
    rw (e, set_string-value c s (rw e at (digits-IsDigit n)), ← e, digits-value n)

-- An integer is read back from its print.
pub set_string-to_string : (x : ℤ) → set_string 10 (to_string x) ≡ some x
unfolding to_string
set_string-to_string (pos n) = set_string-digits n
set_string-to_string (negsuc n) =
    unfold set_string in rw (scan_digits-digits (suc n)) (ground arith)
