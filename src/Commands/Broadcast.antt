-- ===== src/Commands/Broadcast.antt =====
-- `runBroadcast` of internal/cli/cli.go behind its flags: what it reads, checks and asks of the node, in
-- order, and the object that it prints. The dial of the node is a parameter.
pub mod Gate
mod Examples
use eip.Prelude.{
  Bool, true, false, ◌||◌, List, [], ◌∷◌, Option, none, some, Bytes, codes, if◌then◌else◌,
}
use eip.Outcome.{
  rpc_missing, message_flag_missing, Outcome, Checked, ok, err, panic, ◌>>=◌, ◌>>◌, reject,
}
use eip.Types.{SignedAuthorization, Hash}
use eip.Amount.{is_empty}
use eip.Ethereum.{PrivateKey, Ethereum}
use eip.Signing.{verify_signed_authorization}
use eip.Go.Json.Encode.{text, Fields}
use eip.Message.{parse_message_json}
use eip.Objects.{put, signed_authorization_object}
use eip.Client.{Node, Request, Traced, append_trace, broadcast_authorization}
use eip.Cli.Policy.{
  SignatureVOptions, validate, Input, Message, warns_v, keeps_v, asks_v,
  resolve_signature_v_for_broadcast, Resolved,
}
use eip.Console.{System, KeyOptions, and_then, read_input_arg, load_private_key}

pub record BroadcastOptions : Type 0 where
  pub rpc : Bytes
  pub message : Bytes
  pub key : KeyOptions
  pub verify : Bool
  pub signature_v : SignatureVOptions

unfoldable pub check_flags : BroadcastOptions → Checked
check_flags o = do
  validate o.signature_v
  reject (is_empty o.rpc) rpc_missing
  reject (is_empty o.message) message_flag_missing
  ok tt

-- A line was read for an answer.
unfoldable pub has_asked : List Message → Bool
has_asked [] = false
has_asked (asks_v v w ∷ printed) = true
has_asked (_ ∷ printed) = has_asked printed

module _ {R : Type 0} (system : System R) (eth : Ethereum) where
  -- `if verify`
  unfoldable pub check_verified : Bool → SignedAuthorization → Outcome SignedAuthorization
  check_verified false signed = ok signed
  check_verified true signed = do verify_signed_authorization eth (some signed); ok signed

  unfoldable pub read_signed : Bool → Bytes → Outcome SignedAuthorization
  unfolding check_verified
  read_signed verify raw = do signed ← parse_message_json eth raw; check_verified verify signed

  -- The signature behind its pointer is changed in place; an answer is a line of the reader.
  abbrev pub with_resolved : SignedAuthorization → R → Resolved → Outcome SignedAuthorization × R
  with_resolved signed input (signature, printed, checked) = (
    (checked >> ok (record signed { signature = signature })),
    if has_asked printed then (system.read_line input).1 else input,
  )

  unfoldable pub resolve_v :
      SignatureVOptions → SignedAuthorization → R → Outcome SignedAuthorization × R
  resolve_v opts signed input = with_resolved signed input (
      resolve_signature_v_for_broadcast signed.signature opts
        (record { is_terminal = system.is_terminal input; line = (system.read_line input).0 }))

  -- All that is done before the node is dialled.
  unfoldable pub prepare : BroadcastOptions → R → Outcome (SignedAuthorization × PrivateKey) × R
  unfolding check_flags read_signed resolve_v
  prepare o input =
      and_then (check_flags o, input)
        (λ _ i₀. and_then (read_input_arg system o.message i₀) (λ raw i₁.
          and_then (read_signed o.verify raw, i₁)
            (λ signed i₂. and_then (resolve_v o.signature_v signed i₂) (λ resolved i₃.
              and_then (load_private_key system o.key i₃) (λ key i₄. (ok (resolved, key), i₄))))))

  -- The printed object, with the hash of the transaction.
  unfoldable pub with_tx_hash : Bool → SignedAuthorization → Hash → Outcome Fields
  with_tx_hash verify signed tx_hash = do
    out ← signed_authorization_object eth signed (some verify)
    ok (put (codes "txHash") (text (eth.hash_hex tx_hash)) out)

  abbrev pub then_print : (Hash → Outcome Fields) → Traced Hash → Traced Fields
  then_print print (ok tx_hash, asked) = (print tx_hash, asked)
  then_print print (err e, asked) = (err e, asked)
  then_print print (panic, asked) = (panic, asked)

  abbrev pub with_node : Bool → SignedAuthorization → PrivateKey → Outcome Node → Traced Fields
  with_node verify signed key (ok node) =
      then_print (with_tx_hash verify signed) (broadcast_authorization eth node signed (some key))
  with_node verify signed key (err e) = (err e, [])
  with_node verify signed key panic = (panic, [])

  module _ (dial : Bytes → Outcome Node) where
    abbrev pub broadcast_prepared :
        BroadcastOptions → Outcome (SignedAuthorization × PrivateKey) → Traced Fields
    broadcast_prepared o (ok (signed, key)) = with_node o.verify signed key (dial o.rpc)
    broadcast_prepared o (err e) = (err e, [])
    broadcast_prepared o panic = (panic, [])

    unfoldable pub run_broadcast : BroadcastOptions → R → Traced Fields
    unfolding prepare with_tx_hash
    run_broadcast o input = broadcast_prepared o (prepare o input).0
