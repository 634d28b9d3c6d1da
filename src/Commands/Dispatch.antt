-- ===== src/Commands/Dispatch.antt =====
-- `Run`, here `dispatch`, of internal/cli/cli.go: the command is chosen by its name, and its error
-- gives the exit code. What is printed is left out.
pub mod Names
pub mod ExitCodes
use eip.Prelude.{
  ℕ, ◌≡◌, ◌≢◌, ◌↔◌, refl, inl, inr, Bool, true, false, Bool-cases, ◌||◌, List, [], ◌∷◌, Bytes,
  codes, if◌then◌else◌, bytes_eq,
}
use eip.Outcome.{Error, wrapped, help_requested, Outcome, Checked, ok, err, panic}

pub data Command : Type 0 where
  check sign extract cancel broadcast : Command

-- The cases of the switch on `args[1]`.
pub data Choice : Type 0 where
  executes : Command → Choice
  shows_usage refuses : Choice

unfoldable pub choice_of : Bytes → Choice
choice_of name =
    if bytes_eq name (codes "check")
    then executes check
    else if bytes_eq name (codes "sign")
    then executes sign
    else if bytes_eq name (codes "extract")
    then executes extract
    else if bytes_eq name (codes "cancel")
    then executes cancel
    else if bytes_eq name (codes "broadcast")
    then executes broadcast
    else if bytes_eq name (codes "help")
        || bytes_eq name (codes "-h")
        || bytes_eq name (codes "--help")
    then shows_usage
    else refuses

-- errors.Is(err, flag.ErrHelp)
unfoldable pub is_help : Error → Bool
is_help help_requested = true
is_help (wrapped place e) = is_help e
is_help _ = false

unfoldable pub exit_code : Checked → Outcome ℕ
exit_code (ok u) = ok 0
exit_code (err e) = if is_help e then ok 0 else ok 1
exit_code panic = panic

module _ (execute : Command → List Bytes → Checked) where
  unfoldable pub run_choice : List Bytes → Choice → Outcome ℕ
  unfolding exit_code
  run_choice args (executes command) = exit_code (execute command args)
  run_choice args shows_usage = ok 0
  run_choice args refuses = ok 2

  unfoldable pub dispatch : List Bytes → Outcome ℕ
  unfolding run_choice choice_of
  dispatch [] = ok 2
  dispatch (program ∷ []) = ok 2
  dispatch (program ∷ name ∷ args) = run_choice args (choice_of name)
