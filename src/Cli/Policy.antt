-- ===== src/Cli/Policy.antt =====
-- `signatureVOptions` and `resolveSignatureVForBroadcast` of internal/cli/cli.go: what is done about
-- an imported signature whose v is 0 or 1. The reader `in` is the record `Input`; what is printed to
-- the error stream is returned as a list, in order.
pub mod Recovery
use eip.Prelude.{
  ℕ, ◌+◌, ◌%◌, Bool, true, false, ◌&&◌, ◌||◌, not, List, [], ◌∷◌, ◌++◌, Option, none, some, Bytes,
  codes, ◌==◌, if◌then◌else◌, bytes_eq,
}
use eip.Outcome.{
  Error, normalize_and_keep, yes_and_keep, needs_policy, invalid_answer, invalid_v, Outcome,
  Checked, ok, err, panic, ◌>>=◌, ◌>>◌, reject,
}
use eip.Go.Strings.{trim_space, to_lower}
use eip.Types.{Signature}

pub record SignatureVOptions : Type 0 where
  pub normalize_v : Bool
  pub keep_v : Bool
  pub yes_all : Bool

unfoldable pub validate : SignatureVOptions → Checked
validate o = do
  reject (o.normalize_v && o.keep_v) normalize_and_keep
  reject (o.yes_all && o.keep_v) yes_and_keep
  ok tt

-- What a read from `in` gives: whether it is a terminal, and the next line, where the end of the
-- input is no error.
pub record Input : Type 0 where
  pub is_terminal : Bool
  pub line : Outcome Bytes

pub data Message : Type 0 where
  warns_v keeps_v : ℕ → Message
  asks_v : ℕ → ℕ → Message

-- The signature behind the pointer, what was printed, and the result.
abbrev pub Resolved : Type 0
Resolved = Option Signature × List Message × Checked

-- The cases of `promptNormalizeSignatureV` on the answer.
unfoldable pub answer_of : Bytes → Outcome Bool
answer_of line =
    let answer = to_lower (trim_space line) in
    if bytes_eq answer [] || bytes_eq answer (codes "y") || bytes_eq answer (codes "yes")
    then ok true
    else if bytes_eq answer (codes "n") || bytes_eq answer (codes "no")
    then ok false
    else err (invalid_answer (trim_space line))

unfoldable pub prompt_normalize_signature_v : Input → Outcome Bool
prompt_normalize_signature_v input = input.line >>= answer_of

unfoldable pub can_prompt : Input → Bool
can_prompt input = input.is_terminal

-- What is done with the answer to the prompt, behind what was printed before it.
unfoldable pub after_prompt : Signature → Outcome Bool → List Message → Resolved
after_prompt signature (ok true) printed =
    (some (record signature { v = (signature.v + 27) % 256 }), printed, ok tt)
after_prompt signature (ok false) printed =
    (some signature, printed ++ keeps_v signature.v ∷ [], ok tt)
after_prompt signature (err e) printed = (some signature, printed, err e)
after_prompt signature panic printed = (some signature, printed, panic)

-- The part for a v of 0 or 1.
unfoldable pub resolve_low : Signature → SignatureVOptions → Input → Resolved
resolve_low signature opts input =
    let normalized_v = (signature.v + 27) % 256 in
    let warned = warns_v signature.v ∷ [] in
    if opts.keep_v
    then (some signature, warned ++ keeps_v signature.v ∷ [], ok tt)
    else if opts.normalize_v || opts.yes_all
    then (some (record signature { v = normalized_v }), warned, ok tt)
    else if not (can_prompt input)
    then (some signature, warned, err (needs_policy signature.v normalized_v))
    else after_prompt signature (prompt_normalize_signature_v input)
        (warned ++ asks_v normalized_v signature.v ∷ [])

unfoldable pub resolve_signature_v_for_broadcast :
    Option Signature → SignatureVOptions → Input → Resolved
resolve_signature_v_for_broadcast none opts input = (none, [], ok tt)
resolve_signature_v_for_broadcast (some signature) opts input =
    if signature.v == 27 || signature.v == 28
    then (some signature, [], ok tt)
    else if signature.v == 0 || signature.v == 1
    then resolve_low signature opts input
    else (some signature, [], err (invalid_v signature.v))
