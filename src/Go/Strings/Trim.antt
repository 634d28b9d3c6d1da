-- ===== src/Go/Strings/Trim.antt =====
-- `strings.TrimSpace` leaves texts of visible ASCII alone.
use eip.Prelude.{
  ℕ, ◌≤◌, ◌<◌, ◌≡◌, refl, sym, ap, ◌∙◌, [], ◌∷◌, ◌++◌, reverse, reverse-append, reverse-reverse,
  arith, Bytes, All, All-append,
}
use eip.Go.Strings.{first_width, last_width, trim_from, trim_space}

abbrev pub IsVisible : ℕ → Type 0
IsVisible c = (33 ≤ c) × (c < 128)

first_width-visible : (c : ℕ) (s : Bytes) → IsVisible c → first_width (c ∷ s) ≡ 0
unfolding first_width
first_width-visible c [] h = ground arith
first_width-visible c (b ∷ []) h = ground arith
first_width-visible c (b ∷ a ∷ s) h = ground arith

last_width-visible : (c : ℕ) (s : Bytes) → IsVisible c → last_width (c ∷ s) ≡ 0
unfolding last_width
last_width-visible c [] h = ground arith
last_width-visible c (b ∷ []) h = ground arith
last_width-visible c (b ∷ a ∷ s) h = ground arith

trim_first : (s : Bytes) → All IsVisible s → trim_from first_width 0 s ≡ s
unfolding trim_from
trim_first [] h = refl
trim_first (c ∷ s) h = rw (first_width-visible c s h.0, trim_from)

trim_last : (s : Bytes) → All IsVisible s → trim_from last_width 0 s ≡ s
unfolding trim_from
trim_last [] h = refl
trim_last (c ∷ s) h = rw (last_width-visible c s h.0, trim_from)

pub All-reverse {ℓ} : (P : ℕ → Type ℓ) (s : Bytes) → All P s → All P (reverse s)
All-reverse P [] h = tt
All-reverse P (c ∷ s) h =
    rw (reverse-append (c ∷ []) s)
      (All-append P (reverse s) (c ∷ []) (All-reverse P s h.1) (h.0, tt))

pub trim_space-visible : (s : Bytes) → All IsVisible s → trim_space s ≡ s
unfolding trim_space
trim_space-visible s h =
    rw (trim_first s h, trim_last (reverse s) (All-reverse IsVisible s h), reverse-reverse s)

-- A text that begins and ends with visible bytes is left alone, and a line feed behind it is
-- dropped.
reverse-ends : (c : ℕ) (t u : Bytes) → reverse (c ∷ (t ++ u)) ≡ reverse u ++ reverse (c ∷ t)
reverse-ends c t u = reverse-append (c ∷ t) u

trim_head : (c : ℕ) (s : Bytes) → IsVisible c → trim_from first_width 0 (c ∷ s) ≡ c ∷ s
unfolding trim_from
trim_head c s h = rw (first_width-visible c s h, trim_from)

trim_end : (d : ℕ) (s : Bytes) → IsVisible d → trim_from last_width 0 (d ∷ s) ≡ d ∷ s
unfolding trim_from
trim_end d s h = rw (last_width-visible d s h, trim_from)

line_feed : (d : ℕ) (s : Bytes) → IsVisible d → trim_from last_width 0 (b'\n' ∷ d ∷ s) ≡ d ∷ s
unfolding trim_from last_width
line_feed d [] h = trim_end d [] h
line_feed d (c ∷ s) h = trim_end d (c ∷ s) h

pub trim_space-ends :
    (c d : ℕ) (t : Bytes)
    → IsVisible c
    → IsVisible d
    → (trim_space (c ∷ (t ++ d ∷ [])) ≡ c ∷ (t ++ d ∷ []))
      × (trim_space (c ∷ (t ++ d ∷ b'\n' ∷ [])) ≡ c ∷ (t ++ d ∷ []))
unfolding trim_space
trim_space-ends c d t h k =
    let back : reverse (d ∷ reverse (c ∷ t)) ≡ c ∷ (t ++ d ∷ []) =
      ap reverse (sym (reverse-ends c t (d ∷ []))) ∙ reverse-reverse (c ∷ (t ++ d ∷ [])) in
    (
      rw (trim_head c (t ++ d ∷ []) h, reverse-ends c t (d ∷ []), trim_end d (reverse (c ∷ t)) k)
          back,
      rw
          (
            trim_head c (t ++ d ∷ b'\n' ∷ []) h,
            reverse-ends c t (d ∷ b'\n' ∷ []),
            line_feed d (reverse (c ∷ t)) k,
          )
          back,
    )
