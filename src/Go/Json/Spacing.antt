-- ===== src/Go/Json/Spacing.antt =====
-- What stands around the values of a printed document, to the scanner.
use eip.Prelude.{
  ℕ, zero, suc, ◌≡◌, ◌⊎◌, refl, ◌∙◌, ap, inl, inr, Bool, true, false, List, [], ◌∷◌, ◌++◌, some,
  arith, Bytes, append_assoc, All,
}
use eip.Go.Json.{
  is_space, plain, string_step, number_step, is_final, Frame, in_array, in_object, State, begin,
  begin_or_close, key_or_close, key, after, in_string, in_number, begin_step, after_step,
  in_number_step, in_string_step, step,
}
use eip.Go.Json.Quote.{quote, quote_body}
use eip.Go.Json.Decode.{run}
use eip.Go.Json.Encode.{
  Json, text, number, truth, array, object, Items, nil, item, Fields, end, field, Layout, compact,
  indented, line, colon_text, print_items, print_fields,
}
use eip.Go.Json.Text.{IsAscii, stays-quote_body}
use eip.Go.Json.Runs.{run-append, run_idle, run-stays, IsSpace, line-IsSpace, number_end}

-- Texts of ASCII, in at most so many arrays and objects one inside the other.
unfoldable mutual
  pub Fits : ℕ → Json → Type 0
  Fits r (text s) = All IsAscii s
  Fits r (number n) = Unit
  Fits r (truth b) = Unit
  Fits zero (array vs) = ⊥
  Fits (suc r) (array vs) = FitsItems r vs
  Fits zero (object fs) = ⊥
  Fits (suc r) (object fs) = FitsFields r fs

  pub FitsItems : ℕ → Items → Type 0
  FitsItems r nil = Unit
  FitsItems r (item v vs) = Fits r v × FitsItems r vs

  pub FitsFields : ℕ → Fields → Type 0
  FitsFields r end = Unit
  FitsFields r (field k v fs) = All IsAscii k × Fits r v × FitsFields r fs

-- Where a value leaves the scanner.
abbrev pub settled : Json → List Frame → State
settled (number n) stack = (in_number (number_end n), stack)
settled _ stack = (after, stack)

abbrev pub IsDelimiter : ℕ → Type 0
IsDelimiter c = (is_space c ≡ true) ⊎ (c ≡ b',') ⊎ (c ≡ b']') ⊎ (c ≡ b'}')

number_delimiter :
    (n : ℕ) (stack : List Frame) (c : ℕ)
    → IsDelimiter c
    → step (in_number (number_end n), stack) c ≡ after_step stack c
unfolding step in_number_step number_step is_final
number_delimiter n stack c h = ground arith

settled-delimiter :
    (v : Json) (stack : List Frame) (c : ℕ)
    → IsDelimiter c
    → step (settled v stack) c ≡ step (after, stack) c
unfolding step
settled-delimiter (number n) stack c h = number_delimiter n stack c h
settled-delimiter _ stack c h = refl

-- The scanner goes on behind a value as behind any other.
pub run-settled :
    (v : Json) (stack : List Frame) (c : ℕ) (t : Bytes)
    → IsDelimiter c
    → run step (settled v stack) (c ∷ t) ≡ run step (after, stack) (c ∷ t)
unfolding run
run-settled v stack c t h = rw (run, settled-delimiter v stack c h) refl

-- What a string of the encoder is to the scanner, behind its opening quote.
inside :
    (k : Bool) (stack : List Frame) (s t : Bytes)
    → All IsAscii s
    → run step (in_string k plain, stack) (quote_body s ++ t)
      ≡ run step (in_string k plain, stack) t
unfolding step in_string_step
inside k stack s t h =
    run-append step (in_string k plain, stack) (in_string k plain, stack) (quote_body s) t
      (run-stays step (λ st read. (in_string k st, stack)) (λ st st' read c e. rw e refl) plain
        plain [] (quote_body s) (stays-quote_body s h))

pub run-text :
    (stack : List Frame) (s : Bytes)
    → All IsAscii s
    → run step (begin, stack) (quote s) ≡ some (after, stack)
unfolding quote run step begin_step in_string_step string_step
run-text stack s h = inside false stack s (b'"' ∷ []) h

-- A key with its colon, where a key may come.
pub run-key :
    (l : Layout) (stack : List Frame) (k t : Bytes)
    → All IsAscii k
    → run step (key, stack) (quote k ++ (colon_text l ++ t)) ≡ run step (begin, stack) t
unfolding quote run step in_string_step string_step colon_text begin_step
run-key compact stack k t h =
    ap (run step (in_string true plain, stack)) (append_assoc (quote_body k) (b'"' ∷ []) (b':' ∷ t))
    ∙ inside true stack k (b'"' ∷ b':' ∷ t) h
run-key indented stack k t h =
    ap (run step (in_string true plain, stack))
      (append_assoc (quote_body k) (b'"' ∷ []) (b':' ∷ b' ' ∷ t))
    ∙ inside true stack k (b'"' ∷ b':' ∷ b' ' ∷ t) h

line-cons :
    (l : Layout) (d c : ℕ) (t : Bytes)
    → IsDelimiter c
    → (c' : ℕ) × (t' : Bytes) × (line l d ++ c ∷ t ≡ c' ∷ t') × IsDelimiter c'
unfolding line
line-cons compact d c t h = (c, t, refl, h)
line-cons indented d c t h = (b'\n', _, refl, inl refl)

module _ (l : Layout) where
  -- White space is passed over.
  pub key_or_close-line :
      (d : ℕ) (stack : List Frame) (t : Bytes)
      → run step (key_or_close, stack) (line l d ++ t) ≡ run step (key_or_close, stack) t
  unfolding step
  key_or_close-line d stack t =
      run_idle step IsSpace (key_or_close, stack) (λ c e. rw e refl) (line l d) t (line-IsSpace l d)

  pub key-line :
      (d : ℕ) (stack : List Frame) (t : Bytes)
      → run step (key, stack) (line l d ++ t) ≡ run step (key, stack) t
  unfolding step
  key-line d stack t =
      run_idle step IsSpace (key, stack) (λ c e. rw e refl) (line l d) t (line-IsSpace l d)

  pub begin-line :
      (d : ℕ) (stack : List Frame) (t : Bytes)
      → run step (begin, stack) (line l d ++ t) ≡ run step (begin, stack) t
  unfolding step begin_step
  begin-line d stack t =
      run_idle step IsSpace (begin, stack) (λ c e. rw e refl) (line l d) t (line-IsSpace l d)

  pub begin_or_close-line :
      (d : ℕ) (stack : List Frame) (t : Bytes)
      → run step (begin_or_close, stack) (line l d ++ t) ≡ run step (begin_or_close, stack) t
  unfolding step
  begin_or_close-line d stack t =
      run_idle step IsSpace (begin_or_close, stack) (λ c e. rw e refl) (line l d) t
        (line-IsSpace l d)

  pub after-line :
      (d : ℕ) (f : Frame) (stack : List Frame) (t : Bytes)
      → run step (after, f ∷ stack) (line l d ++ t) ≡ run step (after, f ∷ stack) t
  unfolding step after_step
  after-line d in_array stack t =
      run_idle step IsSpace (after, in_array ∷ stack) (λ c e. rw e refl) (line l d) t
        (line-IsSpace l d)
  after-line d in_object stack t =
      run_idle step IsSpace (after, in_object ∷ stack) (λ c e. rw e refl) (line l d) t
        (line-IsSpace l d)

  pub print_items-cons :
      (d : ℕ) (vs : Items) → (c : ℕ) × (t : Bytes) × (print_items l d vs ≡ c ∷ t) × IsDelimiter c
  unfolding print_items
  print_items-cons d (item v vs) = (b',', _, refl, inr (inl refl))
  print_items-cons d nil = line-cons l d b']' [] (inr (inr (inl refl)))

  pub print_fields-cons :
      (d : ℕ) (fs : Fields) → (c : ℕ) × (t : Bytes) × (print_fields l d fs ≡ c ∷ t) × IsDelimiter c
  unfolding print_fields
  print_fields-cons d (field k v fs) = (b',', _, refl, inr (inl refl))
  print_fields-cons d end = line-cons l d b'}' [] (inr (inr (inr refl)))
