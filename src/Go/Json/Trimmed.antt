-- ===== src/Go/Json/Trimmed.antt =====
-- A printed object begins and ends with its braces, and so has no white space around it.
use eip.Prelude.{ℕ, suc, ◌≡◌, refl, sym, ap, ◌∙◌, [], ◌∷◌, ◌++◌, append_assoc, arith, Bytes}
use eip.Go.Strings.{trim_space}
use eip.Go.Strings.Trim.{trim_space-ends}
use eip.Go.Json.Quote.{quote}
use eip.Go.Json.Encode.{
  object, Fields, end, field, Layout, line, colon_text, print, print_fields, member_text,
}

Ends : Bytes → Type 0
Ends s = (t : Bytes) × (s ≡ t ++ b'}' ∷ [])

Ends-append : (u s : Bytes) → Ends s → Ends (u ++ s)
unfolding Ends
Ends-append u s (t, e) = (u ++ t, ap (λ (v : Bytes). u ++ v) e ∙ sym (append_assoc u t (b'}' ∷ [])))

module _ (l : Layout) where
  member-Ends : (d : ℕ) (k value rest : Bytes) → Ends rest → Ends (member_text l d k value rest)
  member-Ends d k value rest h =
      Ends-append (line l d) _
        (Ends-append (quote k) _ (Ends-append (colon_text l) _ (Ends-append value rest h)))

  print_fields-Ends : (d : ℕ) (fs : Fields) → Ends (print_fields l d fs)
  unfolding print_fields
  print_fields-Ends d end = unfold Ends in (line l d, refl)
  print_fields-Ends d (field k v fs) =
      Ends-append (b',' ∷ []) _
        (member-Ends (suc d) k (print l (suc d) v) _ (print_fields-Ends d fs))

  pub print-braces :
      (d : ℕ) (fs : Fields) → (t : Bytes) × (print l d (object fs) ≡ b'{' ∷ (t ++ b'}' ∷ []))
  unfolding print Ends
  print-braces d end = ([], refl)
  print-braces d (field k v fs) =
      let (t, e) = member-Ends (suc d) k (print l (suc d) v) _ (print_fields-Ends d fs) in
      (t, ap (◌∷◌ b'{') e)

  pub trim_space-print :
      (d : ℕ) (fs : Fields)
      → (trim_space (print l d (object fs)) ≡ print l d (object fs))
        × (trim_space (print l d (object fs) ++ b'\n' ∷ []) ≡ print l d (object fs))
  trim_space-print d fs =
      let (t, e) = print-braces d fs in
      let (same, dropped) = trim_space-ends b'{' b'}' t (omega arith) (omega arith) in
      (
        rw e same,
        rw e (
            ap (λ (u : Bytes). trim_space (b'{' ∷ u)) (append_assoc t (b'}' ∷ []) (b'\n' ∷ []))
            ∙ dropped),
      )
