-- ===== src/Console/Keys.antt =====
-- When a command may run without anyone at the terminal.
use eip.Prelude.{◌≡◌, ◌≢◌, refl, inl, inr, ◌⊎◌, false, Bool-cases, [], ◌∷◌, ltb, Bytes}
use eip.Amount.{is_empty}
use eip.Console.{System, KeyOptions, sources, read_password, load_private_key}

filled : (s : Bytes) → s ≢ [] → is_empty s ≡ false
filled [] h = absurd (h refl)
filled (c ∷ s) h = refl

module _ {R : Type 0} (system : System R) where
  -- With a private key in a flag, or a key store and its password in flags, and no flag that asks for
  -- standard input, loadPrivateKey leaves the reader as it was, whatever it comes back with.
  pub load_private_key-unread :
      (o : KeyOptions) (input : R)
      → o.stdin_key ≡ false
      → (o.private_key ≢ []) ⊎ ((o.keystore_path ≢ []) × (o.password ≢ []))
      → (load_private_key system o input).1 ≡ input
  unfolding load_private_key read_password
  load_private_key-unread o input no_stdin given = elim (Bool-cases (ltb 1 (sources o))) [
    | inl many ↦ rw many refl
    | inr few ↦ elim (Bool-cases (is_empty o.private_key)) [
      | inr key ↦ rw (few, key) refl
      | inl none_given ↦ elim given [
        | inl key ↦ let full = filled o.private_key key in absurd (cc (full, none_given))
        | inr (path, password) ↦
            rw (few, none_given, no_stdin, filled o.keystore_path path, filled o.password password)
              refl
      ]
    ]
  ]
