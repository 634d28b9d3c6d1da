-- ===== src/Go/Json/Runs.antt =====
-- Runs of the machines over a text put together, over white space, strings and numbers.
use eip.Prelude.{
  reverse, append-nil, reverse-append, append_assoc, ℕ, zero, suc, ◌*◌, ◌+◌, ◌/◌, ◌%◌, ◌≤◌, ◌<◌,
  ◌≡◌, refl, ◌∙◌, sym, ap, inl, inr, true, Bool-cases, List, [], ◌∷◌, ◌++◌, Option, some, none,
  arith, Bytes, ltb, ◌==◌, All, if◌then◌else◌, replicate,
}
use eip.Go.Big.{digits_fuel, digits}
use eip.Go.Big.Decimal.{IsDigit, digits-IsDigit}
use eip.Go.Json.{
  is_space, StringState, closes, goes, refused, string_step, NumberState, number_step, zero_digit,
  Frame, begin, in_number, begin_step, in_number_step, step,
}
use eip.Go.Json.Decode.{run}
use eip.Go.Json.Encode.{Layout, compact, indented, line}
use eip.Go.Json.Text.{stays}

-- A text put backwards in front of another.
abbrev pub onto : Bytes → Bytes → Bytes
onto [] read = read
onto (c ∷ t) read = onto t (c ∷ read)

pub reverse-onto : (t read : Bytes) → reverse (onto t read) ≡ reverse read ++ t
reverse-onto [] read = sym (append-nil (reverse read))
reverse-onto (c ∷ t) read =
    reverse-onto t (c ∷ read)
    ∙ ap (λ (u : Bytes). u ++ t) (reverse-append (c ∷ []) read)
    ∙ append_assoc (reverse read) (c ∷ []) t

module _ {S : Type 0} (move : S → ℕ → Option S) where
  pub run-append :
      (s s' : S) (t u : Bytes) → run move s t ≡ some s' → run move s (t ++ u) ≡ run move s' u
  unfolding run
  run-append s s' [] u h = cc
  run-append s s' (c ∷ t) u h =
      elim (move s c)
          as (λ o.
            (elim o [ none ↦ none | some n ↦ run move n t ]) ≡ some s'
            → (elim o [ none ↦ none | some n ↦ run move n (t ++ u) ]) ≡ run move s' u) [
              | none ↦ λ e. cc
              | some n ↦ λ e. run-append n s' t u e
            ]
        h

  pub run-cons :
      (s s' : S) (c : ℕ) (t : Bytes) → move s c ≡ some s' → run move s (c ∷ t) ≡ run move s' t
  unfolding run
  run-cons s s' c t h = rw (run, h) refl

  -- Bytes that leave a state alone.
  pub run_idle :
      (P : ℕ → Type 0) (s : S)
      → ((c : ℕ) → P c → move s c ≡ some s)
      → (t u : Bytes) → All P t
      → run move s (t ++ u) ≡ run move s u
  run_idle P s idle [] u h = refl
  run_idle P s idle (c ∷ t) u h = run-cons s s c (t ++ u) (idle c h.0) ∙ run_idle P s idle t u h.1

  -- A machine that goes through the states of a string, keeping what it reads.
  pub run-stays :
      (wrap : StringState → Bytes → S)
      → ((st st' : StringState) (read : Bytes) (c : ℕ)
          → string_step st c ≡ goes st'
          → move (wrap st read) c ≡ some (wrap st' (c ∷ read)))
      → (st st' : StringState) (read t : Bytes) → stays st t ≡ some st'
      → run move (wrap st read) t ≡ some (wrap st' (onto t read))
  unfolding stays run
  run-stays wrap follows st st' read [] h = let same : st ≡ st' = cc in rw same refl
  run-stays wrap follows st st' read (c ∷ t) h =
      elim (string_step st c)
          as (λ o.
            string_step st c ≡ o
            → (elim o [ goes n ↦ stays n t | closes ↦ none | refused ↦ none ]) ≡ some st'
            → run move (wrap st read) (c ∷ t) ≡ some (wrap st' (onto t (c ∷ read)))) [
              | goes n ↦ λ e k.
                  run-cons (wrap st read) (wrap n (c ∷ read)) c t (follows st n read c e)
                  ∙ run-stays wrap follows n st' (c ∷ read) t k
              | closes ↦ λ e k. cc
              | refused ↦ λ e k. cc
            ]
        refl h

abbrev pub IsSpace : ℕ → Type 0
IsSpace c = is_space c ≡ true

pub line-IsSpace : (l : Layout) (d : ℕ) → All IsSpace (line l d)
unfolding line
line-IsSpace compact d = tt
line-IsSpace indented d = (refl, blanks (2 * d))
  where
    blanks : (n : ℕ) → All IsSpace (replicate n b' ')
    blanks zero = tt
    blanks (suc n) = (refl, blanks n)

-- The first digit of a number above 0 is no zero.
first_digit :
    (f n : ℕ) → n < f → 0 < n → (c : ℕ) × (s : Bytes) × (digits_fuel f n ≡ c ∷ s) × (b'1' ≤ c)
unfolding digits_fuel
first_digit zero n h p = absurd (omega arith)
first_digit (suc f) n h p = elim (Bool-cases (ltb n 10)) [
  | inl e ↦ (b'0' + n, [], rw (e, digits_fuel) refl, omega arith)
  | inr e ↦
      let (c, s, q, one) = first_digit f (n / 10) (ground arith) (ground arith) in
      (c, s ++ ((b'0' + n % 10) ∷ []), rw (e, digits_fuel, q) refl, one)
]

abbrev pub number_end : ℕ → NumberState
number_end n = if n == 0 then zero_digit else NumberState.digits

digit_step :
    (stack : List Frame) (c : ℕ)
    → IsDigit c
    → step (in_number NumberState.digits, stack) c ≡ some (in_number NumberState.digits, stack)
unfolding step in_number_step number_step
digit_step stack c h = ground arith

more_digits :
    (stack : List Frame) (s : Bytes)
    → All IsDigit s
    → run step (in_number NumberState.digits, stack) s ≡ some (in_number NumberState.digits, stack)
unfolding run
more_digits stack [] h = refl
more_digits stack (c ∷ s) h =
    run-cons step (in_number NumberState.digits, stack) _ c s (digit_step stack c h.0)
    ∙ more_digits stack s h.1

begin-digit :
    (stack : List Frame) (c : ℕ)
    → b'1' ≤ c
    → c ≤ b'9'
    → step (begin, stack) c ≡ some (in_number NumberState.digits, stack)
unfolding step begin_step
begin-digit stack c h k = ground arith

run_zero :
    (stack : List Frame) → run step (begin, stack) (digits 0) ≡ some (in_number zero_digit, stack)
unfolding digits run step begin_step
run_zero stack = refl

run_positive :
    (n : ℕ) (stack : List Frame)
    → 0 < n
    → run step (begin, stack) (digits n) ≡ some (in_number NumberState.digits, stack)
unfolding digits
run_positive n stack h =
    let (c, s, e, one) = first_digit (suc n) n (omega arith) h in
    let all : All IsDigit (c ∷ s) = rw e at (digits-IsDigit n) in
    rw e (
      run-cons step (begin, stack) (in_number NumberState.digits, stack) c s
        (begin-digit stack c one all.0.1)
      ∙ more_digits stack s all.1)

pub run-digits :
    (n : ℕ) (stack : List Frame)
    → run step (begin, stack) (digits n) ≡ some (in_number (number_end n), stack)
run-digits n stack = elim (Bool-cases (n == 0)) [
  | inl e ↦ let z : n ≡ 0 = ground arith in rw z (run_zero stack)
  | inr e ↦ rw e (run_positive n stack (ground arith))
]
