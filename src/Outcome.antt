-- ===== src/Outcome.antt =====
-- What a Go call comes back with: its value, an error, or a panic. One constructor of `Error` stands
-- for each error that internal/eip3009 and internal/cli build, with the text or number that its
-- message shows; `wrapped` is `fmt.Errorf("<place>: %w", err)`, and `external` an error of a package
-- that the repository only calls.
use mathlib.Core.Path.{subst}
use eip.Prelude.{ℕ, Bytes, Bool, true, false, ◌≡◌, ◌≢◌, refl}

pub data Error : Type 0 where
  external : Bytes → Error
  wrapped : Bytes → Error → Error
  -- types.go, eip712.go
  signature_required signed_required key_required : Error
  invalid_v : ℕ → Error
  unsupported_kind : Bytes → Error
  from_required to_required value_required authorizer_required : Error
  name_required version_required chain_required contract_required : Error
  recovers_other : Bytes → Bytes → Error
  -- amount.go
  value_and_amount value_or_amount decimals_required : Error
  invalid_value : Bytes → Error
  amount_required amount_negative : Error
  invalid_amount : Bytes → Error
  too_many_digits : Bytes → ℕ → Error
  -- calldata.go
  short_calldata : Error
  wrong_inputs : Bytes → ℕ → Error
  decoded_as_other : Bytes → Error
  overflows_uint64 : Error
  unsupported_method : Bytes → Error
  -- client.go
  tx_key_required missing_signature : Error
  wrong_sender : Bytes → Bytes → Error
  empty_return : Error
  wants_hash : Bytes → Error
  -- message.go
  message_empty domain_missing message_missing value_missing integer_empty : Error
  signature_length : ℕ → Error
  v_overflows : ℕ → Error
  invalid_address : Bytes → Error
  hash_length : ℕ → Error
  invalid_integer : Bytes → Error
  integer_overflows : Bytes → Error
  -- cli.go
  normalize_and_keep yes_and_keep : Error
  needs_policy : ℕ → ℕ → Error
  invalid_answer : Bytes → Error
  valid_before_and_ttl valid_before_or_ttl ttl_overflows : Error
  input_missing secret_empty key_empty one_key_source message_and_calldata message_or_calldata :
      Error
  sign_cancels decimals_overflow dry_run_from verification_failed token_missing nonce_missing :
      Error
  key_mismatch : Bytes → Bytes → Error
  rpc_missing message_flag_missing help_requested : Error

pub data Outcome {ℓ} (A : Type ℓ) : Type ℓ where
  ok : A → Outcome A
  err : Error → Outcome A
  panic : Outcome A

-- A call that returns an error alone.
abbrev pub Checked : Type 0
Checked = Outcome (Unit {0})

infixl 5 ◌>>=◌ ◌>>◌
abbrev pub ◌>>=◌ {ℓ κ} : {A : Type ℓ} {B : Type κ} → Outcome A → (A → Outcome B) → Outcome B
ok a >>= f = f a
err e >>= f = err e
panic >>= f = panic

abbrev pub ◌>>◌ {ℓ} : {B : Type ℓ} → Checked → Outcome B → Outcome B
m >> k = m >>= λ _. k

-- `if bad { return err }`
abbrev pub reject : Bool → Error → Checked
reject true e = err e
reject false e = ok tt

-- The error of a call, seen by a caller that adds its own words to it.
abbrev pub wrap {ℓ} : {A : Type ℓ} → Bytes → Outcome A → Outcome A
wrap place (ok a) = ok a
wrap place (err e) = err (wrapped place e)
wrap place panic = panic

-- A chain that succeeds has a first call that succeeds, and a rest that does.
pub >>=-eq-ok {ℓ κ} :
    {A : Type ℓ} {B : Type κ} {result : B} (first : Outcome A) (rest : A → Outcome B)
    (done : (first >>= rest) ≡ ok result)
    → (x : A) × (first ≡ ok x) × (rest x ≡ ok result)
>>=-eq-ok panic rest done = cc
>>=-eq-ok (err reason) rest done = cc
>>=-eq-ok (ok x) rest done = (x, refl, done)

pub ok-injective {ℓ} : {A : Type ℓ} (a b : A) → ok a ≡ ok b → a ≡ b
ok-injective a b h = cc

-- A guard does not panic.
pub reject_calm : (c : Bool) (e : Error) → reject c e ≢ panic
reject_calm true e = λ no. cc
reject_calm false e = λ no. cc

-- The call does not panic, and what it returns has the property.
abbrev pub Answers {ℓ} : {A : Type ℓ} → (A → Type 0) → Outcome A → Type 0
Answers P (ok a) = P a
Answers P (err e) = Unit
Answers P panic = ⊥

pub Answers-bind {ℓ κ} :
    {A : Type ℓ} {B : Type κ} (P : A → Type 0) (Q : B → Type 0) (r : Outcome A) (f : A → Outcome B)
    → Answers P r
    → ((a : A) → P a → Answers Q (f a))
    → Answers Q (r >>= f)
Answers-bind P Q (ok a) f h k = k a h
Answers-bind P Q (err e) f h k = tt
Answers-bind P Q panic f h k = absurd h

pub Answers-wrap {ℓ} :
    {A : Type ℓ} (P : A → Type 0) (place : Bytes) (r : Outcome A)
    → Answers P r
    → Answers P (wrap place r)
Answers-wrap P place (ok a) h = h
Answers-wrap P place (err e) h = tt
Answers-wrap P place panic h = h

pub Answers-reject : (c : Bool) (e : Error) → Answers (λ _. c ≡ false) (reject c e)
Answers-reject true e = tt
Answers-reject false e = refl

-- Both parts of it apart.
pub Answers-split {ℓ} :
    {A : Type ℓ} (P : A → Type 0) (r : Outcome A)
    → Answers P r
    → (r ≢ panic) × ((a : A) → r ≡ ok a → P a)
Answers-split P (ok a) h = (λ e. cc, λ b e. subst P (ok-injective a b e) h)
Answers-split P (err e) h = (λ e. cc, λ b e. cc)
Answers-split P panic h = absurd h
