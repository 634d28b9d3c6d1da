-- ===== src/Client/Examples.antt =====
-- A payment broadcast to a node that answers everything.
use eip.Prelude.{◌≡◌, refl, inl, [], ◌∷◌, ◌++◌, replicate, some, Bytes, pos, bytes_eq}
use eip.Outcome.{ok}
use eip.Types.{SignedAuthorization, kind_text, receive}
use eip.Ethereum.Sample.{
  sample, sample_pack, sample_id, sample_sign_tx, pack_values, pack_value, word,
}
use eip.Ethereum.{find_method}
use eip.Client.{Node, broadcast_signed, broadcast_checked, broadcast_authorization}
use eip.Client.Attempt.{MaySend}
use eip.Client.Broadcast.{Safe, broadcast-Safe}
use eip.Client.Delivery.{delivered, broadcast_delivers}
use eip.Calldata.{encode_kind, encode_execute_calldata}
use eip.Fixtures.{
  key, key_address, recipient, nonce, usd_domain, payment_signature, signed_payment, payment,
}

abbrev willing_node : Node
willing_node = record {
  chain_id = ok (pos 1);
  pending_nonce_at = λ a. ok 4;
  suggest_gas_price = ok (pos 30);
  estimate_gas = λ call. ok 50_000;
  send_transaction = λ tx. ok tt;
}

broadcast-Safe_example :
    Safe sample willing_node signed_payment
      (some key)
      (broadcast_authorization sample willing_node signed_payment (some key))
broadcast-Safe_example = broadcast-Safe sample willing_node signed_payment (some key)

-- The transaction of the payment that the sample's signer makes for this node.
abbrev payment_input : Bytes
payment_input =
    (0 ∷ 0 ∷ 0 ∷ 25 ∷ [])
    ++ (replicate 12 0 ++ key_address)
    ++ (replicate 12 0 ++ recipient)
    ++ word 32 1_000_000
    ++ word 32 0
    ++ word 32 1_740_000_000
    ++ nonce
    ++ word 32 27
    ++ payment_signature.r
    ++ payment_signature.s

abbrev payment_tx : Bytes
payment_tx = 5 ∷ 4 ∷ 60_000 ∷ payment_input

unfoldable may_send_payment : MaySend sample willing_node signed_payment key payment_tx
unfolding encode_execute_calldata encode_kind sample sample_pack sample_id sample_sign_tx
    pack_values pack_value find_method bytes_eq kind_text word
may_send_payment = record {
  signature = payment_signature;
  is_signed = refl;
  by_recipient = inl (λ e. cc);
  input = payment_input;
  encoded = refl;
  chain = pos 1;
  on_chain = refl;
  nonce = 4;
  next_nonce = refl;
  price = pos 30;
  suggested = refl;
  estimate = 50_000;
  estimated = refl;
  signed_tx = refl;
}

broadcast_delivers_example :
    broadcast_authorization sample willing_node signed_payment (some key)
    ≡ delivered sample
        (sample.pubkey_to_address key.public_key)
        usd_domain.verifying_contract
        payment_input
        payment_tx
unfolding may_send_payment
broadcast_delivers_example =
    broadcast_delivers sample willing_node signed_payment key payment_tx may_send_payment refl

-- The key is not the recipient of this one.
abbrev signed_receipt : SignedAuthorization
signed_receipt = record signed_payment { authorization = record payment { kind = receive } }

run_wrong_sender : (broadcast_authorization sample willing_node signed_receipt (some key)).1 ≡ []
unfolding broadcast_authorization broadcast_checked broadcast_signed bytes_eq sample
run_wrong_sender = refl
