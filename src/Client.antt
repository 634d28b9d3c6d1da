-- ===== src/Client.antt =====
-- `BroadcastAuthorization` of internal/eip3009/client.go. The node is the record `Node` of the answers
-- that it gives: each is asked for at most once in a broadcast. What the program asks of the node is
-- written to a trace, in order, beside the result.
pub mod Attempt
pub mod Broadcast
mod Delivery
mod Examples
use eip.Prelude.{
  ℕ, ◌+◌, ◌/◌, ◌%◌, ◌^◌, Bool, true, false, ◌&&◌, not, List, [], ◌∷◌, ◌++◌, Option, none, some,
  Bytes, if◌then◌else◌, bytes_eq, ℤ, pos,
}
use eip.Outcome.{
  Error, tx_key_required, missing_signature, wrong_sender, Outcome, Checked, ok, err, panic,
}
use eip.Types.{
  Address, Hash, AuthorizationKind, transfer, receive, cancel, other, Signature,
  SignedAuthorization,
}
use eip.Ethereum.{PrivateKey, CallMsg, Transaction, Ethereum}
use eip.Calldata.{encode_execute_calldata}

-- The answers of `TxClient`'s methods.
pub record Node : Type 0 where
  pub chain_id : Outcome ℤ
  pub pending_nonce_at : Address → Outcome ℕ
  pub suggest_gas_price : Outcome ℤ
  pub estimate_gas : CallMsg → Outcome ℕ
  pub send_transaction : Bytes → Checked

pub data Request : Type 0 where
  asks_chain_id asks_gas_price : Request
  asks_nonce : Address → Request
  asks_estimate : CallMsg → Request
  sends : Bytes → Request

-- A result with the requests that were made for it.
abbrev pub Traced {ℓ} : Type ℓ → Type ℓ
Traced A = Outcome A × List Request

abbrev pub append_trace {ℓ} : {A : Type ℓ} → List Request → Traced A → Traced A
append_trace before (r, after) = (r, before ++ after)

infixl 5 ◌>>=◌
abbrev pub ◌>>=◌ {ℓ κ} : {A : Type ℓ} {B : Type κ} → Traced A → (A → Traced B) → Traced B
(ok a, t) >>= f = append_trace t (f a)
(err e, t) >>= f = (err e, t)
(panic, t) >>= f = (panic, t)

-- A request with its answer, and a computation that asks nothing.
abbrev pub ask {ℓ} : {A : Type ℓ} → Request → Outcome A → Traced A
ask q answer = (answer, q ∷ [])

abbrev pub pure {ℓ} : {A : Type ℓ} → Outcome A → Traced A
pure answer = (answer, [])

-- `kind == ReceiveAuthorization`
abbrev pub is_receive : AuthorizationKind → Bool
is_receive receive = true
is_receive _ = false

module _ (eth : Ethereum) (node : Node) where
  -- The part behind the encoding of the calldata.
  unfoldable pub submit : Address → Address → PrivateKey → Bytes → Traced Hash
  submit from to key input = do
    chain_id ← ask asks_chain_id node.chain_id
    nonce ← ask (asks_nonce from) (node.pending_nonce_at from)
    gas_price ← ask asks_gas_price node.suggest_gas_price
    let call : CallMsg = record { from = from; to = to; input = input }
    estimate ← ask (asks_estimate call) (node.estimate_gas call)
    let gas_limit = (estimate + estimate / 5) % 2 ^ 64
    let tx : Transaction = record {
      nonce = nonce;
      to = to;
      value = pos 0;
      gas = gas_limit;
      gas_price = gas_price;
      input = input;
    }
    signed_tx ← pure (eth.sign_tx tx chain_id key)
    _ ← ask (sends signed_tx) (node.send_transaction signed_tx)
    pure (ok (eth.tx_hash signed_tx))

  -- The part behind the two nil checks.
  unfoldable pub broadcast_signed : SignedAuthorization → PrivateKey → Traced Hash
  broadcast_signed signed key =
      let from = eth.pubkey_to_address key.public_key in
      let to = signed.authorization.to in
      if is_receive signed.authorization.kind && not (bytes_eq from to)
      then pure (err (wrong_sender to from))
      else pure (encode_execute_calldata eth signed)
        >>= submit from signed.domain.verifying_contract key

  unfoldable pub broadcast_checked :
      SignedAuthorization → PrivateKey → Option Signature → Traced Hash
  broadcast_checked signed key none = pure (err missing_signature)
  broadcast_checked signed key (some signature) = broadcast_signed signed key

  unfoldable pub broadcast_authorization : SignedAuthorization → Option PrivateKey → Traced Hash
  broadcast_authorization signed none = pure (err tx_key_required)
  broadcast_authorization signed (some key) = broadcast_checked signed key signed.signature
