-- ===== src/Client/Delivery.antt =====
-- A broadcast gets through: what it asks, in which order, and what it gives back.
use eip.Prelude.{
  ◌≡◌, ◌≢◌, ◌⊎◌, refl, inl, inr, false, [], ◌∷◌, Option, none, some, Bytes, bytes_eq, bytes_eq_refl,
  not, ◌&&◌,
}
use eip.Outcome.{ok}
use eip.Types.{
  Address, Hash, AuthorizationKind, transfer, receive, cancel, other, Signature,
  SignedAuthorization,
}
use eip.Ethereum.{PrivateKey, Ethereum}
use eip.Client.{
  Node, Traced, asks_chain_id, asks_gas_price, asks_nonce, asks_estimate, sends, is_receive, submit,
  broadcast_signed, broadcast_checked, broadcast_authorization,
}
use eip.Client.Attempt.{MaySend}

-- The recipient of a receive passes the test.
recipient_passes :
    (from to : Address) (k : AuthorizationKind)
    → (k ≢ receive) ⊎ (from ≡ to)
    → (is_receive k && not (bytes_eq from to)) ≡ false
recipient_passes from to receive (inl differ) = absurd (differ refl)
recipient_passes from to receive (inr same) = rw (same, bytes_eq_refl to) refl
recipient_passes from to transfer h = refl
recipient_passes from to cancel h = refl
recipient_passes from to (other t) h = refl

-- The hash of a transaction, behind the requests for it.
abbrev pub delivered : Ethereum → Address → Address → Bytes → Bytes → Traced Hash
delivered eth from token input tx = (
  ok (eth.tx_hash tx),
  asks_chain_id
      ∷ asks_nonce from
      ∷ asks_gas_price
      ∷ asks_estimate (record { from = from; to = token; input = input })
      ∷ sends tx
      ∷ [],
)

module _ (eth : Ethereum) (node : Node) (signed : SignedAuthorization) (key : PrivateKey)
    (tx : Bytes) (may : MaySend eth node signed key tx)
    (taken : node.send_transaction tx ≡ ok tt) where
  abbrev goal : Traced Hash
  goal =
      delivered eth (eth.pubkey_to_address key.public_key) signed.domain.verifying_contract
        may.input tx

  submit_delivers :
      submit eth node
        (eth.pubkey_to_address key.public_key)
        signed.domain.verifying_contract
        key
        may.input
      ≡ goal
  unfolding submit
  submit_delivers =
      rw (may.on_chain, may.next_nonce, may.suggested, may.estimated, may.signed_tx, taken) refl

  broadcast_signed_delivers : broadcast_signed eth node signed key ≡ goal
  unfolding broadcast_signed
  broadcast_signed_delivers =
      let passes =
        recipient_passes (eth.pubkey_to_address key.public_key) signed.authorization.to
          signed.authorization.kind may.by_recipient in
      rw (passes, may.encoded) submit_delivers

  broadcast_checked_delivers :
      (o : Option Signature)
      → o ≡ some may.signature
      → broadcast_checked eth node signed key o ≡ goal
  unfolding broadcast_checked
  broadcast_checked_delivers none e = cc
  broadcast_checked_delivers (some sig) e = broadcast_signed_delivers

-- If there is a transaction that meets `MaySend` and the node takes it, a broadcast gives its hash,
-- after it has asked for the chain, the sender's next nonce, the gas price and the estimate for the
-- call of the token with the calldata, and has sent the transaction, each once and in this order.
pub broadcast_delivers :
    (eth : Ethereum) (node : Node) (signed : SignedAuthorization) (key : PrivateKey) (tx : Bytes)
    (may : MaySend eth node signed key tx)
    → node.send_transaction tx ≡ ok tt
    → broadcast_authorization eth node signed (some key)
      ≡ delivered eth
          (eth.pubkey_to_address key.public_key)
          signed.domain.verifying_contract
          may.input
          tx
unfolding broadcast_authorization
broadcast_delivers eth node signed key tx may taken =
    broadcast_checked_delivers eth node signed key tx may taken signed.signature may.is_signed
