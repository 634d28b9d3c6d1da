-- ===== src/Commands/Dispatch/Names.antt =====
-- Which command, or none, a word of the command line names, and that `choice_of` chooses it.
use eip.Prelude.{
  ◌≡◌, ◌≢◌, ◌⊎◌, refl, inl, inr, Bool, true, false, Bool-cases, ◌||◌, Bytes, codes, if◌then◌else◌,
  bytes_eq, bytes_eq_sound, bytes_eq_refl, arith,
}
use eip.Commands.Dispatch.{
  Command, check, sign, extract, cancel, broadcast, Choice, executes, shows_usage, refuses,
  choice_of,
}

-- The words of the command line.
abbrev pub command_name : Command → Bytes
command_name check = codes "check"
command_name sign = codes "sign"
command_name extract = codes "extract"
command_name cancel = codes "cancel"
command_name broadcast = codes "broadcast"

abbrev pub IsUsageWord : Bytes → Type 0
IsUsageWord name = (name ≡ codes "help") ⊎ (name ≡ codes "-h") ⊎ (name ≡ codes "--help")

-- Neither.
abbrev pub IsUnknown : Bytes → Type 0
IsUnknown name = ((command : Command) → name ≢ command_name command) × (¬ (IsUsageWord name))

-- What a choice says of the word that it is made by.
abbrev pub ChoiceIs : Bytes → Choice → Type 0
ChoiceIs name (executes command) = name ≡ command_name command
ChoiceIs name shows_usage = IsUsageWord name
ChoiceIs name refuses = IsUnknown name

choice_of-command_name : (command : Command) → choice_of (command_name command) ≡ executes command
unfolding choice_of bytes_eq
choice_of-command_name check = refl
choice_of-command_name sign = refl
choice_of-command_name extract = refl
choice_of-command_name cancel = refl
choice_of-command_name broadcast = refl

pub choice_of-named :
    (name : Bytes) (command : Command)
    → name ≡ command_name command
    → choice_of name ≡ executes command
choice_of-named name command e = rw e (choice_of-command_name command)

pub choice_of-usage : (name : Bytes) → IsUsageWord name → choice_of name ≡ shows_usage
unfolding choice_of bytes_eq
choice_of-usage name (inl e) = rw e refl
choice_of-usage name (inr (inl e)) = rw e refl
choice_of-usage name (inr (inr e)) = rw e refl

differs : (name word : Bytes) → bytes_eq name word ≡ false → name ≢ word
differs name word h e =
    let again : bytes_eq name word ≡ true = rw e (bytes_eq_refl word) in cc (h, again)

-- One test of a word.
if-ChoiceIs :
    (name word : Bytes) (here there : Choice)
    → (name ≡ word → ChoiceIs name here)
    → (name ≢ word → ChoiceIs name there)
    → ChoiceIs name (if bytes_eq name word then here else there)
if-ChoiceIs name word here there f g = elim (Bool-cases (bytes_eq name word)) [
  | inl b ↦ rw b (f (bytes_eq_sound name word b))
  | inr b ↦ rw b (g (differs name word b))
]

usage_test : Bytes → Bool
usage_test name =
    bytes_eq name (codes "help") || bytes_eq name (codes "-h") || bytes_eq name (codes "--help")

no_usage : (name : Bytes) → IsUsageWord name → usage_test name ≡ true
unfolding usage_test bytes_eq
no_usage name (inl e) = rw e refl
no_usage name (inr (inl e)) = rw e refl
no_usage name (inr (inr e)) = rw e refl

is_usage : (name : Bytes) → usage_test name ≡ true → IsUsageWord name
unfolding usage_test
is_usage name h = elim (Bool-cases (bytes_eq name (codes "help"))) [
  | inl a ↦ inl (bytes_eq_sound name _ a)
  | inr a ↦ elim (Bool-cases (bytes_eq name (codes "-h"))) [
    | inl b ↦ inr (inl (bytes_eq_sound name _ b))
    | inr b ↦ inr (inr (bytes_eq_sound name _ (ground arith)))
  ]
]

none_named :
    (name : Bytes)
    → name ≢ codes "check"
    → name ≢ codes "sign"
    → name ≢ codes "extract"
    → name ≢ codes "cancel"
    → name ≢ codes "broadcast"
    → (command : Command) → name ≢ command_name command
none_named name a b c d e check = a
none_named name a b c d e sign = b
none_named name a b c d e extract = c
none_named name a b c d e cancel = d
none_named name a b c d e broadcast = e

-- `choice_of` chooses by the words.
pub choice_of-ChoiceIs : (name : Bytes) → ChoiceIs name (choice_of name)
unfolding choice_of usage_test
choice_of-ChoiceIs name =
    if-ChoiceIs name _ _ _ (λ e. e)
      λ a.
        if-ChoiceIs name _ _ _ (λ e. e)
          λ b.
            if-ChoiceIs name _ _ _ (λ e. e)
              λ c.
                if-ChoiceIs name _ _ _ (λ e. e)
                  λ d.
                    if-ChoiceIs name _ _ _ (λ e. e)
                      λ e. elim (Bool-cases (usage_test name)) [
                        | inl u ↦ rw u (is_usage name u)
                        | inr u ↦
                            rw u
                              (none_named name a b c d e, λ w. let t = no_usage name w in cc (u, t))
                      ]
