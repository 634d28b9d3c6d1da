-- ===== src/Go/Json/ReadBack.antt =====
-- A printed object is unmarshalled into its keys with the printed texts of their values.
use eip.Prelude.{
  ℕ, suc, ◌≤◌, ◌≡◌, refl, ◌∙◌, ap, true, false, [], ◌∷◌, ◌++◌, some, none, arith, Bytes,
  append_assoc, All,
}
use eip.Outcome.{ok}
use eip.Go.Big.Decimal.{IsDigit, digits-IsDigit, digits-cons}
use eip.Go.Json.{
  is_space, plain, string_step, State, begin, step, is_complete, after_step, is_final,
  in_number_step, number_step,
}
use eip.Go.Json.Quote.{quote, quote_body, unquote}
use eip.Go.Json.Decode.{
  Members, start, first_key, next_key, after_member, closed, in_key, before_colon, before_value,
  in_value, key_step, member_step, value_step, first_step, read_step, run, members_of,
  unmarshal_object,
}
use eip.Go.Json.Encode.{
  Json, text, number, truth, array, object, nil, item, Fields, end, field, Layout, compact,
  indented, line, colon_text, truth_text, print, print_fields, member_text,
}
use eip.Go.Json.Text.{IsAscii, stays-quote_body, unquote-quote_body}
use eip.Go.Json.Runs.{
  run-append, run-cons, run_idle, run-stays, onto, reverse-onto, IsSpace, line-IsSpace,
}
use eip.Go.Json.Values.{scan}
use eip.Go.Json.Spacing.{Fits, FitsFields, settled, IsDelimiter, print_fields-cons}

-- The members of an object, in front of those that were read before.
abbrev pub read_back : Layout → ℕ → Fields → Members → Members
read_back l d end members = members
read_back l d (field k v fs) members = read_back l d fs ((k, print l (suc d) v) ∷ members)

digit_visible : (c : ℕ) → IsDigit c → is_space c ≡ false
digit_visible c h = ground arith

-- A value begins with a byte that is no white space.
print-cons :
    (l : Layout) (d : ℕ) (v : Json)
    → (c : ℕ) × (t : Bytes) × (print l d v ≡ c ∷ t) × (is_space c ≡ false)
unfolding print quote truth_text
print-cons l d (text s) = (_, _, refl, refl)
print-cons l d (number n) =
    let (c, s, e) = digits-cons n in
    let all : All IsDigit (c ∷ s) = rw e at (digits-IsDigit n) in (c, s, e, digit_visible c all.0)
print-cons l d (truth true) = (_, _, refl, refl)
print-cons l d (truth false) = (_, _, refl, refl)
print-cons l d (array nil) = (_, _, refl, refl)
print-cons l d (array (item v vs)) = (_, _, refl, refl)
print-cons l d (object end) = (_, _, refl, refl)
print-cons l d (object (field k v fs)) = (_, _, refl, refl)

settled_ends :
    (v : Json) (c : ℕ)
    → IsDelimiter c
    → (step (settled v []) c ≡ none) × (is_complete (settled v []) ≡ true)
unfolding step after_step is_complete in_number_step number_step is_final
settled_ends (number n) c h = (ground arith, ground arith)
settled_ends _ c h = (refl, refl)

-- While the scanner reads a value, its bytes are kept.
in_value-run :
    (k : Bytes) (members : Members) (s s' : State) (read t : Bytes)
    → run step s t ≡ some s'
    → run read_step (in_value k s read, members) t ≡ some (in_value k s' (onto t read), members)
unfolding run read_step value_step
in_value-run k members s s' read [] h = let same : s ≡ s' = cc in rw same refl
in_value-run k members s s' read (c ∷ t) h =
    elim (step s c)
        as (λ o.
          (elim o [ none ↦ none | some n ↦ run step n t ]) ≡ some s'
          → (elim (value_step k s read members c o) [ none ↦ none | some n ↦ run read_step n t ])
            ≡ some (in_value k s' (onto t (c ∷ read)), members)) [
              | none ↦ λ e. cc
              | some n ↦ λ e. in_value-run k members n s' (c ∷ read) t e
            ]
      h

begins_value :
    (k : Bytes) (members : Members) (c : ℕ)
    → is_space c ≡ false
    → read_step (before_value k, members) c ≡ first_step k members c (step (begin, []) c)
unfolding read_step
begins_value k members c h = rw h refl

before_value-run :
    (k : Bytes) (members : Members) (s : State) (c : ℕ) (t : Bytes)
    → is_space c ≡ false
    → run step (begin, []) (c ∷ t) ≡ some s
    → run read_step (before_value k, members) (c ∷ t)
      ≡ some (in_value k s (onto (c ∷ t) []), members)
unfolding run first_step
before_value-run k members s c t visible h =
    rw (run, begins_value k members c visible)
      (elim (step (begin, []) c)
          as (λ o.
            (elim o [ none ↦ none | some n ↦ run step n t ]) ≡ some s
            → (elim (first_step k members c o) [ none ↦ none | some n ↦ run read_step n t ])
              ≡ some (in_value k s (onto (c ∷ t) []), members)) [
                | none ↦ λ e. cc
                | some n ↦ λ e. in_value-run k members n s (c ∷ []) t e
              ]
        h)

module _ (l : Layout) where
  then_delimiter :
      (k : Bytes) (members : Members) (d : ℕ) (v : Json) (c : ℕ) (t : Bytes)
      → IsDelimiter c
      → run read_step (in_value k (settled v []) (onto (print l d v) []), members) (c ∷ t)
        ≡ run read_step (after_member, (k, print l d v) ∷ members) (c ∷ t)
  unfolding run read_step value_step
  then_delimiter k members d v c t h =
      let (stops, whole) = settled_ends v c h in
      rw (run, stops, whole, reverse-onto (print l d v) []) refl

  -- A key and its colon.
  in_key-run :
      (members : Members) (k : Bytes) (t : Bytes)
      → All IsAscii k
      → run read_step (in_key plain [], members) (quote_body k ++ b'"' ∷ t)
        ≡ run read_step (before_colon k, members) t
  unfolding read_step key_step string_step
  in_key-run members k t h =
      run-append read_step (in_key plain [], members)
        (in_key plain (onto (quote_body k) []), members) (quote_body k) (b'"' ∷ t)
        (run-stays read_step (λ st read. (in_key st read, members)) (λ st st' read c e. rw e refl)
          plain plain [] (quote_body k) (stays-quote_body k h))
      ∙ run-cons read_step (in_key plain (onto (quote_body k) []), members)
          (before_colon k, members) b'"' t
          (ap (λ (u : Bytes). some (before_colon u, members))
            (ap unquote (reverse-onto (quote_body k) []) ∙ unquote-quote_body k h))

  run_colon :
      (members : Members) (k t : Bytes)
      → run read_step (before_colon k, members) (colon_text l ++ t)
        ≡ run read_step (before_value k, members) t
  unfolding colon_text run read_step
  run_colon members k t = colon_run l
    where
      colon_run :
          (l : Layout)
          → run read_step (before_colon k, members) (colon_text l ++ t)
            ≡ run read_step (before_value k, members) t
      colon_run compact = refl
      colon_run indented = refl

  quoted_key :
      (members : Members) (k t : Bytes)
      → All IsAscii k
      → (run read_step (first_key, members) (quote k ++ t)
          ≡ run read_step (before_colon k, members) t)
        × (run read_step (next_key, members) (quote k ++ t)
            ≡ run read_step (before_colon k, members) t)
  unfolding quote run read_step
  quoted_key members k t h =
      let same =
        ap (run read_step (in_key plain [], members)) (append_assoc (quote_body k) (b'"' ∷ []) t)
        ∙ in_key-run members k t h in
      (same, same)

  first_key-line :
      (d : ℕ) (members : Members) (t : Bytes)
      → (run read_step (first_key, members) (line l d ++ t) ≡ run read_step (first_key, members) t)
        × (run read_step (next_key, members) (line l d ++ t) ≡ run read_step (next_key, members) t)
  unfolding read_step
  first_key-line d members t = (
    run_idle read_step IsSpace (first_key, members) (λ c e. rw e refl) (line l d) t
        (line-IsSpace l d),
    run_idle read_step IsSpace (next_key, members) (λ c e. rw e refl) (line l d) t
        (line-IsSpace l d),
  )

  -- A value with what follows it, which begins with a delimiter.
  read_value :
      (r d : ℕ) (members : Members) (k : Bytes) (v : Json) (fs : Fields)
      → Fits r v
      → r ≤ 9999
      → run read_step (before_value k, members) (print l (suc d) v ++ print_fields l d fs)
        ≡ run read_step (after_member, (k, print l (suc d) v) ∷ members) (print_fields l d fs)
  read_value r d members k v fs f h =
      let (c, t, e, visible) = print-cons l (suc d) v in
      let (c', t', e', delimiter) = print_fields-cons l d fs in
      let scanned = scan l r (suc d) v [] f (omega arith) in
      run-append read_step (before_value k, members)
        (in_value k (settled v []) (onto (print l (suc d) v) []), members) (print l (suc d) v)
        (print_fields l d fs)
        (rw e (before_value-run k members (settled v []) c t visible (rw e at scanned)))
      ∙ rw e' (then_delimiter k members (suc d) v c' t' delimiter)

  read_member :
      (r d : ℕ) (members : Members) (k : Bytes) (v : Json) (fs : Fields)
      → All IsAscii k
      → Fits r v
      → r ≤ 9999
      → (run read_step
            (first_key, members)
            (member_text l (suc d) k (print l (suc d) v) (print_fields l d fs))
          ≡ run read_step (after_member, (k, print l (suc d) v) ∷ members) (print_fields l d fs))
        × (run read_step
              (next_key, members)
              (member_text l (suc d) k (print l (suc d) v) (print_fields l d fs))
            ≡ run read_step (after_member, (k, print l (suc d) v) ∷ members) (print_fields l d fs))
  read_member r d members k v fs a f h =
      let rest = colon_text l ++ (print l (suc d) v ++ print_fields l d fs) in
      let (first, next) = first_key-line (suc d) members (quote k ++ rest) in
      let (first', next') = quoted_key members k rest a in
      let value = run_colon members k _ ∙ read_value r d members k v fs f h in
      (first ∙ first' ∙ value, next ∙ next' ∙ value)

  read_end :
      (d : ℕ) (members : Members)
      → run read_step (after_member, members) (line l d ++ b'}' ∷ []) ≡ some (closed, members)
  unfolding read_step member_step run
  read_end d members =
      run_idle read_step IsSpace (after_member, members) (λ c e. rw e refl) (line l d) (b'}' ∷ [])
        (line-IsSpace l d)

  next_member :
      (members : Members) (t : Bytes)
      → run read_step (after_member, members) (b',' ∷ t) ≡ run read_step (next_key, members) t
  unfolding read_step member_step run
  next_member members t = refl

  read_fields :
      (r d : ℕ) (members : Members) (fs : Fields)
      → FitsFields r fs
      → r ≤ 9999
      → run read_step (after_member, members) (print_fields l d fs)
        ≡ some (closed, read_back l d fs members)
  unfolding print_fields FitsFields
  read_fields r d members end f h = read_end d members
  read_fields r d members (field k v fs) f h =
      next_member members _
      ∙ (read_member r d members k v fs f.0 f.1 h).1
      ∙ read_fields r d ((k, print l (suc d) v) ∷ members) fs f.2 h

  opened : (t : Bytes) → run read_step (start, []) (b'{' ∷ t) ≡ run read_step (first_key, []) t
  unfolding run read_step
  opened t = refl

  read_object :
      (r d : ℕ) (fs : Fields)
      → FitsFields r fs
      → r ≤ 9999
      → run read_step (start, []) (print l d (object fs)) ≡ some (closed, read_back l d fs [])
  unfolding print FitsFields
  read_object r d end f h = unfold run read_step in refl
  read_object r d (field k v fs) f h =
      opened _
      ∙ (read_member r d [] k v fs f.0 f.1 h).0
      ∙ read_fields r d ((k, print l (suc d) v) ∷ []) fs f.2 h

  -- A printed object is read back, at any depth of the document, also with a line feed behind it.
  pub unmarshal-print :
      (r d : ℕ) (fs : Fields)
      → FitsFields r fs
      → r ≤ 9999
      → unmarshal_object (print l d (object fs)) ≡ ok (read_back l d fs [])
  unfolding unmarshal_object members_of
  unmarshal-print r d fs f h = rw (read_object r d fs f h) refl

  closed_line :
      (members : Members) → run read_step (closed, members) (b'\n' ∷ []) ≡ some (closed, members)
  unfolding run read_step
  closed_line members = refl

  pub unmarshal-print_line :
      (r d : ℕ) (fs : Fields)
      → FitsFields r fs
      → r ≤ 9999
      → unmarshal_object (print l d (object fs) ++ b'\n' ∷ []) ≡ ok (read_back l d fs [])
  unfolding unmarshal_object members_of
  unmarshal-print_line r d fs f h =
      rw
        (run-append read_step (start, []) (closed, read_back l d fs []) (print l d (object fs))
            (b'\n' ∷ []) (read_object r d fs f h)
          ∙ closed_line (read_back l d fs []))
        refl
