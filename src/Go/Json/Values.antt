-- ===== src/Go/Json/Values.antt =====
-- A printed value is one value of the scanner.
use eip.Prelude.{
  ℕ, zero, suc, ◌+◌, ◌≤◌, ◌≡◌, refl, ◌∙◌, sym, Bool, true, false, List, [], ◌∷◌, ◌++◌, some, arith,
  Bytes, ltb, le→ltb, All, length, codes,
}
use eip.Go.Big.{digits}
use eip.Go.Big.Decimal.{IsDigit, digits-IsDigit, digits-cons}
use eip.Go.Json.{
  Frame, in_array, in_object, begin, begin_or_close, key_or_close, key, after, begin_step,
  after_step, literal_step, step,
}
use eip.Go.Json.Quote.{quote}
use eip.Go.Json.Decode.{run}
use eip.Go.Json.Encode.{
  Json, text, number, truth, array, object, Items, nil, item, Fields, end, field, Layout,
  truth_text, print, print_items, print_fields, member_text,
}
use eip.Go.Json.Text.{IsAscii}
use eip.Go.Json.Runs.{run-append, run-cons, run-digits}
use eip.Go.Json.Spacing.{
  Fits, FitsItems, FitsFields, settled, run-settled, run-text, run-key, key_or_close-line, key-line,
  begin-line, begin_or_close-line, after-line, print_items-cons, print_fields-cons,
}

module _ (l : Layout) where
  -- One value with the members behind it.
  then_items :
      (d : ℕ) (v : Json) (vs : Items) (stack : List Frame)
      → run step (begin, in_array ∷ stack) (print l (suc d) v) ≡ some (settled v (in_array ∷ stack))
      → run step (begin, in_array ∷ stack) (print l (suc d) v ++ print_items l d vs)
        ≡ run step (after, in_array ∷ stack) (print_items l d vs)
  then_items d v vs stack h =
      let (c, t, e, delimiter) = print_items-cons l d vs in
      run-append step (begin, in_array ∷ stack) (settled v (in_array ∷ stack)) _
        (print_items l d vs) h
      ∙ rw e (run-settled v (in_array ∷ stack) c t delimiter)

  then_fields :
      (d : ℕ) (v : Json) (fs : Fields) (stack : List Frame)
      → run step (begin, in_object ∷ stack) (print l (suc d) v)
        ≡ some (settled v (in_object ∷ stack))
      → run step (begin, in_object ∷ stack) (print l (suc d) v ++ print_fields l d fs)
        ≡ run step (after, in_object ∷ stack) (print_fields l d fs)
  then_fields d v fs stack h =
      let (c, t, e, delimiter) = print_fields-cons l d fs in
      run-append step (begin, in_object ∷ stack) (settled v (in_object ∷ stack)) _
        (print_fields l d fs) h
      ∙ rw e (run-settled v (in_object ∷ stack) c t delimiter)

  run-member :
      (d : ℕ) (k : Bytes) (v : Json) (fs : Fields) (stack : List Frame)
      → All IsAscii k
      → run step (begin, in_object ∷ stack) (print l (suc d) v)
        ≡ some (settled v (in_object ∷ stack))
      → run step
          (key, in_object ∷ stack)
          (member_text l (suc d) k (print l (suc d) v) (print_fields l d fs))
        ≡ run step (after, in_object ∷ stack) (print_fields l d fs)
  run-member d k v fs stack a h =
      key-line l (suc d) (in_object ∷ stack) _
      ∙ run-key l (in_object ∷ stack) k _ a
      ∙ then_fields d v fs stack h

  opens_key :
      (stack : List Frame) (k t : Bytes)
      → run step (key_or_close, stack) (quote k ++ t) ≡ run step (key, stack) (quote k ++ t)
  unfolding quote run step
  opens_key stack k t = refl

  -- The first member of an object.
  run_first :
      (d : ℕ) (k : Bytes) (v : Json) (fs : Fields) (stack : List Frame)
      → run step
          (key_or_close, in_object ∷ stack)
          (member_text l (suc d) k (print l (suc d) v) (print_fields l d fs))
        ≡ run step
            (key, in_object ∷ stack)
            (member_text l (suc d) k (print l (suc d) v) (print_fields l d fs))
  run_first d k v fs stack =
      key_or_close-line l (suc d) (in_object ∷ stack) _
      ∙ opens_key (in_object ∷ stack) k _
      ∙ sym (key-line l (suc d) (in_object ∷ stack) _)

  opens :
      (stack : List Frame) (r : ℕ) (t : Bytes)
      → length stack + suc r ≤ 9999
      → (run step (begin, stack) (b'{' ∷ t) ≡ run step (key_or_close, in_object ∷ stack) t)
        × (run step (begin, stack) (b'[' ∷ t) ≡ run step (begin_or_close, in_array ∷ stack) t)
  unfolding step begin_step
  opens stack r t h =
      let room : ltb 9998 (length stack) ≡ false = le→ltb 9998 (length stack) (omega arith) in
      (
        run-cons step (begin, stack) (key_or_close, in_object ∷ stack) b'{' t (rw room refl),
        run-cons step (begin, stack) (begin_or_close, in_array ∷ stack) b'[' t (rw room refl),
      )

  comma :
      (stack : List Frame) (t : Bytes)
      → (run step (after, in_object ∷ stack) (b',' ∷ t) ≡ run step (key, in_object ∷ stack) t)
        × (run step (after, in_array ∷ stack) (b',' ∷ t) ≡ run step (begin, in_array ∷ stack) t)
  unfolding run step after_step
  comma stack t = (refl, refl)

  closing :
      (stack : List Frame)
      → (run step (after, in_object ∷ stack) (b'}' ∷ []) ≡ some (after, stack))
        × (run step (after, in_array ∷ stack) (b']' ∷ []) ≡ some (after, stack))
  unfolding run step after_step
  closing stack = (refl, refl)

  run_truth :
      (b : Bool) (stack : List Frame) → run step (begin, stack) (truth_text b) ≡ some (after, stack)
  unfolding truth_text run step begin_step literal_step
  run_truth true stack = refl
  run_truth false stack = refl

  empty :
      (stack : List Frame) (r : ℕ)
      → length stack + suc r ≤ 9999
      → (run step (begin, stack) (codes "{}") ≡ some (after, stack))
        × (run step (begin, stack) (codes "[]") ≡ some (after, stack))
  unfolding run step
  empty stack r h = ((opens stack r (b'}' ∷ []) h).0, (opens stack r (b']' ∷ []) h).1)

  not_close-digit :
      (c : ℕ) (stack : List Frame)
      → IsDigit c
      → step (begin_or_close, stack) c ≡ step (begin, stack) c
  unfolding step
  not_close-digit c stack h = ground arith

  not_close-digits :
      (n : ℕ) (t : Bytes) (stack : List Frame)
      → run step (begin_or_close, stack) (digits n ++ t) ≡ run step (begin, stack) (digits n ++ t)
  unfolding run
  not_close-digits n t stack =
      let (c, s, e) = digits-cons n in
      let all : All IsDigit (c ∷ s) = rw e at (digits-IsDigit n) in
      rw e (rw (run, not_close-digit c stack all.0) refl)

  -- The value of an array behind its bracket: a value begins, since it is no bracket.
  not_close :
      (d : ℕ) (v : Json) (t : Bytes) (stack : List Frame)
      → run step (begin_or_close, stack) (print l d v ++ t)
        ≡ run step (begin, stack) (print l d v ++ t)
  unfolding run step print quote truth_text
  not_close d (text s) t stack = refl
  not_close d (number n) t stack = not_close-digits n t stack
  not_close d (truth true) t stack = refl
  not_close d (truth false) t stack = refl
  not_close d (array nil) t stack = refl
  not_close d (array (item v vs)) t stack = refl
  not_close d (object end) t stack = refl
  not_close d (object (field k v fs)) t stack = refl

  mutual
    unfolding print Fits

    -- A printed value is scanned as one value.
    pub scan :
        (r d : ℕ) (v : Json) (stack : List Frame)
        → Fits r v
        → length stack + r ≤ 9999
        → run step (begin, stack) (print l d v) ≡ some (settled v stack)
    scan r d (text s) stack f h = run-text stack s f
    scan r d (number n) stack f h = run-digits n stack
    scan r d (truth b) stack f h = run_truth b stack
    scan zero d (array vs) stack f h = absurd f
    scan (suc r) d (array nil) stack f h = (empty stack r h).1
    scan (suc r) d (array (item v vs)) stack f h =
        (opens stack r _ h).1
        ∙ begin_or_close-line l (suc d) (in_array ∷ stack) _
        ∙ not_close (suc d) v _ (in_array ∷ stack)
        ∙ then_items d v vs stack (scan r (suc d) v (in_array ∷ stack) f.0 (omega arith))
        ∙ scan_items r d vs stack f.1 h
    scan zero d (object fs) stack f h = absurd f
    scan (suc r) d (object end) stack f h = (empty stack r h).0
    scan (suc r) d (object (field k v fs)) stack f h =
        (opens stack r _ h).0
        ∙ run_first d k v fs stack
        ∙ run-member d k v fs stack f.0 (scan r (suc d) v (in_object ∷ stack) f.1 (omega arith))
        ∙ scan_fields r d fs stack f.2 h

    scan_items :
        (r d : ℕ) (vs : Items) (stack : List Frame)
        → FitsItems r vs
        → length stack + suc r ≤ 9999
        → run step (after, in_array ∷ stack) (print_items l d vs) ≡ some (after, stack)
    scan_items r d nil stack f h = after-line l d in_array stack (b']' ∷ []) ∙ (closing stack).1
    scan_items r d (item v vs) stack f h =
        (comma stack _).1
        ∙ begin-line l (suc d) (in_array ∷ stack) _
        ∙ then_items d v vs stack (scan r (suc d) v (in_array ∷ stack) f.0 (omega arith))
        ∙ scan_items r d vs stack f.1 h

    scan_fields :
        (r d : ℕ) (fs : Fields) (stack : List Frame)
        → FitsFields r fs
        → length stack + suc r ≤ 9999
        → run step (after, in_object ∷ stack) (print_fields l d fs) ≡ some (after, stack)
    scan_fields r d end stack f h = after-line l d in_object stack (b'}' ∷ []) ∙ (closing stack).0
    scan_fields r d (field k v fs) stack f h =
        (comma stack _).0
        ∙ run-member d k v fs stack f.0 (scan r (suc d) v (in_object ∷ stack) f.1 (omega arith))
        ∙ scan_fields r d fs stack f.2 h
