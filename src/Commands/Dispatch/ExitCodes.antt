-- ===== src/Commands/Dispatch/ExitCodes.antt =====
-- The exit codes of `Run`, by the words of the command line and how the command that they name ends.
use mathlib.Core.Path.{subst}
use eip.Prelude.{ℕ, ◌≡◌, ◌≢◌, ◌⊎◌, ◌↔◌, refl, inl, inr, true, Bool-cases, List, [], ◌∷◌, Bytes}
use eip.Outcome.{Error, wrapped, help_requested, Outcome, Checked, ok, err, panic}
use eip.Commands.Dispatch.{
  Command, Choice, executes, shows_usage, refuses, choice_of, is_help, exit_code, run_choice,
  dispatch,
}
use eip.Commands.Dispatch.Names.{
  command_name, IsUsageWord, IsUnknown, ChoiceIs, choice_of-named, choice_of-usage,
  choice_of-ChoiceIs,
}

-- A request for help, however deep it is wrapped.
pub data AsksHelp : Error → Type 0 where
  asked : AsksHelp help_requested
  inside : (place : Bytes) (e : Error) → AsksHelp e → AsksHelp (wrapped place e)

-- How a command ends.
abbrev pub Succeeds : Checked → Type 0
Succeeds (ok u) = Unit
Succeeds (err e) = AsksHelp e
Succeeds panic = ⊥

abbrev pub Fails : Checked → Type 0
Fails (err e) = ¬ (AsksHelp e)
Fails _ = ⊥

abbrev pub Panics : Checked → Type 0
Panics r = r ≡ panic

-- What the command line says.
abbrev pub AsksUsage : List Bytes → Type 0
AsksUsage (program ∷ name ∷ args) = IsUsageWord name
AsksUsage _ = ⊥

abbrev pub HasNoCommand : List Bytes → Type 0
HasNoCommand (program ∷ name ∷ args) = IsUnknown name
HasNoCommand _ = Unit

is_help_sound : (e : Error) → is_help e ≡ true → AsksHelp e
unfolding is_help
is_help_sound help_requested h = asked
is_help_sound (wrapped place e) h = inside place e (is_help_sound e h)
is_help_sound _ h = cc

is_help_complete : (e : Error) → AsksHelp e → is_help e ≡ true
unfolding is_help
is_help_complete e asked = refl
is_help_complete e (inside place inner a) = is_help_complete inner a

-- The exit code of a command, by how it ends.
exit_iff :
    (r : Checked)
    → ((exit_code r ≡ ok 0) ↔ Succeeds r)
      × ((exit_code r ≡ ok 1) ↔ Fails r)
      × (exit_code r ≢ ok 2)
      × ((exit_code r ≡ panic) ↔ Panics r)
unfolding exit_code
exit_iff (ok u) =
    (((λ h. tt), λ h. refl), ((λ h. cc), λ h. absurd h), (λ h. cc), ((λ h. cc), λ h. cc))
exit_iff panic =
    (((λ h. cc), λ h. absurd h), ((λ h. cc), λ h. absurd h), (λ h. cc), ((λ h. refl), λ h. refl))
exit_iff (err e) = elim (Bool-cases (is_help e)) [
  | inl b ↦
      let a = is_help_sound e b in
      rw b (((λ h. a), λ h. refl), ((λ h. cc), λ h. absurd (h a)), (λ h. cc), ((λ h. cc), λ h. cc))
  | inr b ↦
      let n : ¬ (AsksHelp e) = λ a. let t = is_help_complete e a in cc (b, t) in
      rw b (((λ h. cc), λ h. absurd (n h)), ((λ h. n), λ h. refl), (λ h. cc), ((λ h. cc), λ h. cc))
]

module _ (execute : Command → List Bytes → Checked) where
  -- The command that the line names is executed on the words behind it, and ends in this way.
  abbrev pub Runs : List Bytes → (Checked → Type 0) → Type 0
  Runs (program ∷ name ∷ args) Ends =
      (command : Command) × (name ≡ command_name command) × Ends (execute command args)
  Runs _ Ends = ⊥

  -- What each exit code says of a line whose word makes a choice.
  abbrev pub Codes : List Bytes → Outcome ℕ → Type 0
  Codes line result =
      ((result ≡ ok 0) ↔ (AsksUsage line ⊎ Runs line Succeeds))
      × ((result ≡ ok 1) ↔ Runs line Fails)
      × ((result ≡ ok 2) ↔ HasNoCommand line)
      × ((result ≡ panic) ↔ Runs line Panics)

  runs_one :
      (program name : Bytes) (args : List Bytes) (command : Command) (Ends : Checked → Type 0)
      → choice_of name ≡ executes command
      → Runs (program ∷ name ∷ args) Ends
      → Ends (execute command args)
  runs_one program name args command Ends made (named, same, end) =
      let e = choice_of-named name named same in
      let one : named ≡ command = cc (e, made) in
      subst (λ (c : Command). Ends (execute c args)) one end

  -- A word that makes another choice names no command.
  runs_none :
      (program name : Bytes) (args : List Bytes) (Ends : Checked → Type 0)
      → ((command : Command) → choice_of name ≢ executes command)
      → ¬ (Runs (program ∷ name ∷ args) Ends)
  runs_none program name args Ends other_choice (named, same, end) =
      other_choice named (choice_of-named name named same)

  executes-Codes :
      (program name : Bytes) (args : List Bytes) (command : Command)
      → choice_of name ≡ executes command
      → name ≡ command_name command
      → Codes (program ∷ name ∷ args) (exit_code (execute command args))
  executes-Codes program name args command made named =
      let (calm, one, two, stop) = exit_iff (execute command args) in
      (
        (
          (λ h. inr (command, named, calm.0 h)),
          elim [
            | inl u ↦ let t = choice_of-usage name u in cc (made, t)
            | inr r ↦ calm.1 (runs_one program name args command Succeeds made r)
          ],
        ),
        (
          (λ h. (command, named, one.0 h)),
          λ r. one.1 (runs_one program name args command Fails made r),
        ),
        ((λ h. absurd (two h)), λ (n, _). absurd (n command named)),
        (
          (λ h. (command, named, stop.0 h)),
          λ r. stop.1 (runs_one program name args command Panics made r),
        ),
      )

  choice-Codes :
      (program name : Bytes) (args : List Bytes) (c : Choice)
      → choice_of name ≡ c
      → ChoiceIs name c
      → Codes (program ∷ name ∷ args) (run_choice execute args c)
  unfolding run_choice
  choice-Codes program name args (executes command) made named =
      executes-Codes program name args command made named
  choice-Codes program name args shows_usage made usage =
      let none =
        λ (Ends : Checked → Type 0). runs_none program name args Ends (λ c e. cc (e, made)) in
      (
        ((λ h. inl usage), λ h. refl),
        ((λ h. cc), λ r. absurd (none Fails r)),
        ((λ h. cc), λ (_, n). absurd (n usage)),
        ((λ h. cc), λ r. absurd (none Panics r)),
      )
  choice-Codes program name args refuses made (no_name, no_word) =
      let none =
        λ (Ends : Checked → Type 0). runs_none program name args Ends (λ c e. cc (e, made)) in
      (
        ((λ h. cc), elim [ inl u ↦ absurd (no_word u) | inr r ↦ absurd (none Succeeds r) ]),
        ((λ h. cc), λ r. absurd (none Fails r)),
        ((λ h. (no_name, no_word)), λ h. refl),
        ((λ h. cc), λ r. absurd (none Panics r)),
      )

  short-Codes : Codes [] (ok 2)
  short-Codes = (
    ((λ h. cc), elim [ inl u ↦ absurd u | inr r ↦ absurd r ]),
    ((λ h. cc), λ h. absurd h),
    ((λ h. tt), λ h. refl),
    ((λ h. cc), λ h. absurd h),
  )

  -- Run's exit code is 2 exactly where the line has no second word, or one that is neither a command's
  -- name nor help, -h or --help. It is 1 exactly where the second word is the name of a command and
  -- that command, executed on the words behind it, fails with an error that is no request for help,
  -- wrapped or not. It is 0 exactly where the second word asks for the usage, or is the name of a
  -- command that ends without an error or with a request for help; and Run panics exactly where the
  -- named command does.
  pub dispatch_iff : (line : List Bytes) → Codes line (dispatch execute line)
  unfolding dispatch
  dispatch_iff [] = short-Codes
  dispatch_iff (program ∷ []) = short-Codes
  dispatch_iff (program ∷ name ∷ args) =
      choice-Codes program name args (choice_of name) refl (choice_of-ChoiceIs name)
