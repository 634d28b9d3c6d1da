-- ===== src/Client/Broadcast.antt =====
-- What a broadcast sends, and when.
use eip.Prelude.{
  ◌≡◌, ◌≢◌, ◌⊎◌, refl, true, false, inl, inr, [], Option, none, some, Bytes, arith, bytes_eq,
  bytes_eq_sound, bytes_eq_refl, not, ◌&&◌, Bool-cases,
}
use eip.Outcome.{tx_key_required, missing_signature, wrong_sender, Outcome, ok, err, panic}
use eip.Types.{
  Address, Hash, AuthorizationKind, transfer, receive, cancel, other, Signature,
  SignedAuthorization,
}
use eip.Ethereum.{PrivateKey, Ethereum}
use eip.Calldata.{encode_execute_calldata}
use eip.Client.{
  Node, Traced, pure, ◌>>=◌, is_receive, submit, broadcast_signed, broadcast_checked,
  broadcast_authorization,
}
use eip.Client.Attempt.{Halts, Attempts, submit-Attempts}

-- What the test for the recipient lets through.
recipient_test :
    (from to : Address) (k : AuthorizationKind)
    → (is_receive k && not (bytes_eq from to)) ≡ false
    → (k ≢ receive) ⊎ (from ≡ to)
recipient_test from to receive h = inr (bytes_eq_sound from to (ground arith))
recipient_test from to transfer h = inl (λ e. cc)
recipient_test from to cancel h = inl (λ e. cc)
recipient_test from to (other t) h = inl (λ e. cc)

-- What it stops.
recipient_refused :
    (from to : Address) (k : AuthorizationKind)
    → (is_receive k && not (bytes_eq from to)) ≡ true
    → (k ≡ receive) × (from ≢ to)
recipient_refused from to receive h =
    (refl, λ same. let again : bytes_eq from to ≡ true = rw same (bytes_eq_refl to) in ground arith)
recipient_refused from to transfer h = cc
recipient_refused from to cancel h = cc
recipient_refused from to (other t) h = cc

module _ (eth : Ethereum) (node : Node) (signed : SignedAuthorization) where
  -- Why a broadcast is refused before it asks the node for anything.
  pub data Refuses (key : PrivateKey) (out : Traced Hash) : Type 0 where
    no_signature : signed.signature ≡ none → out ≡ (err missing_signature, []) → Refuses key out
    not_recipient :
        signed.authorization.kind ≡ receive
        → eth.pubkey_to_address key.public_key ≢ signed.authorization.to
        → out
          ≡ (err (wrong_sender signed.authorization.to (eth.pubkey_to_address key.public_key)), [])
        → Refuses key out
    not_encoded : Halts (encode_execute_calldata eth signed) out.0 → out.1 ≡ [] → Refuses key out

  -- What a broadcast does, with a key or without.
  abbrev pub Safe : Option PrivateKey → Traced Hash → Type 0
  Safe none out = out ≡ (err tx_key_required, [])
  Safe (some key) out = Refuses key out ⊎ Attempts eth node signed key out

  encoded-Safe :
      (key : PrivateKey) (sig : Signature)
      → signed.signature ≡ some sig
      → (signed.authorization.kind ≢ receive)
        ⊎ (eth.pubkey_to_address key.public_key ≡ signed.authorization.to)
      → (encoded : Outcome Bytes) → encode_execute_calldata eth signed ≡ encoded
      → Safe (some key) (
          pure encoded
          >>= submit eth node
              (eth.pubkey_to_address key.public_key)
              signed.domain.verifying_contract
              key)
  encoded-Safe key sig is_signed by_recipient (ok input) e =
      inr (submit-Attempts eth node signed key sig input is_signed by_recipient e)
  encoded-Safe key sig is_signed by_recipient (err reason) e =
      inl (not_encoded (inl (reason, e, refl)) refl)
  encoded-Safe key sig is_signed by_recipient panic e = inl (not_encoded (inr (e, refl)) refl)

  broadcast_signed-Safe :
      (key : PrivateKey) (sig : Signature)
      → signed.signature ≡ some sig
      → Safe (some key) (broadcast_signed eth node signed key)
  unfolding broadcast_signed
  broadcast_signed-Safe key sig is_signed =
      let from = eth.pubkey_to_address key.public_key in
      let to = signed.authorization.to in
      let kind = signed.authorization.kind in
      elim (Bool-cases (is_receive kind && not (bytes_eq from to))) [
        | inl refused ↦
            let (received, differ) = recipient_refused from to kind refused in
            rw refused (inl (not_recipient received differ refl))
        | inr passed ↦ rw passed (
            encoded-Safe key sig is_signed (recipient_test from to kind passed)
              (encode_execute_calldata eth signed) refl)
      ]

  broadcast_checked-Safe :
      (key : PrivateKey) (o : Option Signature)
      → signed.signature ≡ o
      → Safe (some key) (broadcast_checked eth node signed key o)
  unfolding broadcast_checked
  broadcast_checked-Safe key none e = inl (no_signature e refl)
  broadcast_checked-Safe key (some sig) e = broadcast_signed-Safe key sig e

-- Without a key a broadcast asks for nothing and fails. With a key it is refused before it asks the
-- node for anything, since there is no signature, the key's address is not the recipient of a receive,
-- or the calldata cannot be encoded, each with its own error; or it stops with nothing sent, at an
-- error or a panic of the node or of the signer of transactions, which is its result; or it sends
-- exactly one transaction, which meets `MaySend`, and its result is the hash of that transaction if
-- the node took it, and else the error or the panic of the node's answer to it.
pub broadcast-Safe :
    (eth : Ethereum) (node : Node) (signed : SignedAuthorization) (key : Option PrivateKey)
    → Safe eth node signed key (broadcast_authorization eth node signed key)
unfolding broadcast_authorization
broadcast-Safe eth node signed none = refl
broadcast-Safe eth node signed (some key) =
    broadcast_checked-Safe eth node signed key signed.signature refl
