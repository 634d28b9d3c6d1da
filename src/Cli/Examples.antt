-- ===== src/Cli/Examples.antt =====
-- Runs of the command line's policies.
use eip.Prelude.{
  ℕ, ◌+◌, ◌^◌, ◌≡◌, ◌≢◌, ◌<◌, ◌⊎◌, ◌↔◌, refl, true, false, List, [], some, codes, arith,
}
use eip.Outcome.{Checked, ok}
use eip.Types.{Signature}
use eip.Ethereum.Sample.{sample}
use eip.Signing.{recover_signature}
use eip.Cli.Policy.{SignatureVOptions, Input, Message, resolve_signature_v_for_broadcast}
use eip.Cli.Policy.Recovery.{Keeps, resolve-recover, unattended_iff}
use eip.Cli.Validity.{resolve_valid_before, resolve_valid_before_iff}
use eip.Fixtures.{usd_domain, payment, payment_signature}

abbrev low_signature : Signature
low_signature = record payment_signature { v = 1 }

abbrev no_flags : SignatureVOptions
no_flags = record { normalize_v = false; keep_v = false; yes_all = false }

abbrev answers_no : Input
answers_no = record { is_terminal = true; line = ok (codes " No\n") }

abbrev pipe : Input
pipe = record { is_terminal = false; line = ok [] }

resolve-recover_example :
    (new : Signature) × (printed : List Message) × (result : Checked)
    × (resolve_signature_v_for_broadcast (some low_signature) no_flags answers_no
        ≡ (some new, printed, result))
    × (recover_signature sample usd_domain payment new
        ≡ recover_signature sample usd_domain payment low_signature)
    × Keeps low_signature no_flags answers_no new result
resolve-recover_example =
    resolve-recover sample usd_domain payment low_signature no_flags answers_no

unattended_iff_example :
    ((resolve_signature_v_for_broadcast (some low_signature) no_flags pipe).2 ≡ ok tt) ↔ (
      ((low_signature.v ≡ 27) ⊎ (low_signature.v ≡ 28))
      ⊎ (((low_signature.v ≡ 0) ⊎ (low_signature.v ≡ 1))
          × ((no_flags.keep_v ≡ true) ⊎ (no_flags.normalize_v ≡ true) ⊎ (no_flags.yes_all ≡ true))))
unattended_iff_example = unattended_iff low_signature no_flags pipe refl

abbrev no_time : ℕ
no_time = 0

abbrev an_hour : ℕ
an_hour = 3_600

resolve_valid_before_iff_example :
    (resolve_valid_before 1_700_000_000 no_time an_hour ≡ ok 1_700_003_600) ↔ (
      ((no_time ≢ 0) × (an_hour ≡ 0) × (1_700_003_600 ≡ no_time))
      ⊎ ((no_time ≡ 0)
          × (an_hour ≢ 0)
          × (1_700_003_600 ≡ 1_700_000_000 + an_hour)
          × (1_700_003_600 < 2 ^ 64)))
resolve_valid_before_iff_example =
    resolve_valid_before_iff 1_700_000_000 no_time an_hour 1_700_003_600 (omega arith) (omega arith)
      (omega arith)
