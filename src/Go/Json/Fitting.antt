-- ===== src/Go/Json/Fitting.antt =====
-- A test that shows of a known value that it is of ASCII and not too deep.
use eip.Prelude.{ℕ, zero, suc, ◌≡◌, refl, Bool, true, false, ◌&&◌, [], ◌∷◌, arith, Bytes, ltb, All}
use eip.Go.Json.Text.{IsAscii}
use eip.Go.Json.Encode.{
  Json, text, number, truth, array, object, Items, nil, item, Fields, end, field,
}
use eip.Go.Json.Spacing.{Fits, FitsItems, FitsFields}

unfoldable pub is_ascii : Bytes → Bool
is_ascii [] = true
is_ascii (c ∷ s) = ltb c 128 && is_ascii s

pub is_ascii_sound : (s : Bytes) → is_ascii s ≡ true → All IsAscii s
unfolding is_ascii
is_ascii_sound [] h = tt
is_ascii_sound (c ∷ s) h = (ground arith, is_ascii_sound s (ground arith))

pub split_and : (a b : Bool) → (a && b) ≡ true → (a ≡ true) × (b ≡ true)
split_and true true h = (refl, refl)
split_and true false h = cc
split_and false b h = cc

unfoldable mutual
  unfolding is_ascii

  pub fits : ℕ → Json → Bool
  fits r (text s) = is_ascii s
  fits r (number n) = true
  fits r (truth b) = true
  fits zero (array vs) = false
  fits (suc r) (array vs) = fits_items r vs
  fits zero (object fs) = false
  fits (suc r) (object fs) = fits_fields r fs

  pub fits_items : ℕ → Items → Bool
  fits_items r nil = true
  fits_items r (item v vs) = fits r v && fits_items r vs

  pub fits_fields : ℕ → Fields → Bool
  fits_fields r end = true
  fits_fields r (field k v fs) = is_ascii k && (fits r v && fits_fields r fs)

mutual
  unfolding fits Fits

  pub fits_sound : (r : ℕ) (v : Json) → fits r v ≡ true → Fits r v
  fits_sound r (text s) h = is_ascii_sound s h
  fits_sound r (number n) h = tt
  fits_sound r (truth b) h = tt
  fits_sound zero (array vs) h = cc
  fits_sound (suc r) (array vs) h = fits_items_sound r vs h
  fits_sound zero (object fs) h = cc
  fits_sound (suc r) (object fs) h = fits_fields_sound r fs h

  pub fits_items_sound : (r : ℕ) (vs : Items) → fits_items r vs ≡ true → FitsItems r vs
  fits_items_sound r nil h = tt
  fits_items_sound r (item v vs) h =
      let (a, b) = split_and (fits r v) (fits_items r vs) h in
      (fits_sound r v a, fits_items_sound r vs b)

  pub fits_fields_sound : (r : ℕ) (fs : Fields) → fits_fields r fs ≡ true → FitsFields r fs
  fits_fields_sound r end h = tt
  fits_fields_sound r (field k v fs) h =
      let (a, bc) = split_and (is_ascii k) (fits r v && fits_fields r fs) h in
      let (b, c) = split_and (fits r v) (fits_fields r fs) bc in
      (is_ascii_sound k a, fits_sound r v b, fits_fields_sound r fs c)
