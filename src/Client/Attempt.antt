-- ===== src/Client/Attempt.antt =====
-- What happens once a broadcast has its calldata: what it sends, and when.
use eip.Prelude.{
  ℕ, ◌+◌, ◌/◌, ◌%◌, ◌^◌, ◌≡◌, ◌≢◌, ◌⊎◌, refl, ◌∙◌, inl, inr, List, [], ◌∷◌, some, Bytes, ℤ, pos,
}
use eip.Outcome.{Error, Outcome, Checked, ok, err, panic}
use eip.Types.{Hash, receive, Signature, SignedAuthorization}
use eip.Ethereum.{PrivateKey, Transaction, Ethereum}
use eip.Calldata.{encode_execute_calldata}
use eip.Client.{
  Node, Request, asks_chain_id, asks_gas_price, asks_nonce, asks_estimate, sends, Traced, ask, pure,
  ◌>>=◌, submit,
}

-- The transactions that a trace sends.
abbrev pub sent : List Request → List Bytes
sent [] = []
sent (sends tx ∷ t) = tx ∷ sent t
sent (asks_chain_id ∷ t) = sent t
sent (asks_gas_price ∷ t) = sent t
sent (asks_nonce a ∷ t) = sent t
sent (asks_estimate c ∷ t) = sent t

-- A result that is the error, or the panic, of a call.
abbrev pub Halts : {A : Type 0} → Outcome A → Outcome Hash → Type 0
Halts answer r = ((e : Error) × (answer ≡ err e) × (r ≡ err e)) ⊎ ((answer ≡ panic) × (r ≡ panic))

module _ (eth : Ethereum) (node : Node) (signed : SignedAuthorization) where
  -- The one transaction that may be sent: a call of the token with the authorization's calldata and
  -- no value, signed by the key for the node's chain, with the sender's next nonce and a fifth more
  -- gas than the estimate; for a receive the sender is the recipient.
  pub record MaySend (key : PrivateKey) (tx : Bytes) : Type 0 where
    pub signature : Signature
    pub is_signed : signed.signature ≡ some signature
    pub by_recipient :
        (signed.authorization.kind ≢ receive)
        ⊎ (eth.pubkey_to_address key.public_key ≡ signed.authorization.to)
    pub input : Bytes
    pub encoded : encode_execute_calldata eth signed ≡ ok input
    pub chain : ℤ
    pub on_chain : node.chain_id ≡ ok chain
    pub nonce : ℕ
    pub next_nonce : node.pending_nonce_at (eth.pubkey_to_address key.public_key) ≡ ok nonce
    pub price : ℤ
    pub suggested : node.suggest_gas_price ≡ ok price
    pub estimate : ℕ
    pub estimated :
        node.estimate_gas (record {
          from = eth.pubkey_to_address key.public_key;
          to = signed.domain.verifying_contract;
          input = input;
        })
        ≡ ok estimate
    pub signed_tx :
        eth.sign_tx
          (record {
            nonce = nonce;
            to = signed.domain.verifying_contract;
            value = pos 0;
            gas = (estimate + estimate / 5) % 2 ^ 64;
            gas_price = price;
            input = input;
          })
          chain
          key
        ≡ ok tx

  -- Why a broadcast stops after its first request with nothing sent, and its result.
  pub data Stops (key : PrivateKey) (r : Outcome Hash) : Type 0 where
    no_chain : Halts node.chain_id r → Stops key r
    no_nonce : Halts (node.pending_nonce_at (eth.pubkey_to_address key.public_key)) r → Stops key r
    no_price : Halts node.suggest_gas_price r → Stops key r
    no_estimate :
        (input : Bytes)
        → encode_execute_calldata eth signed ≡ ok input
        → Halts
            (node.estimate_gas (record {
              from = eth.pubkey_to_address key.public_key;
              to = signed.domain.verifying_contract;
              input = input;
            }))
            r
        → Stops key r
    not_signed :
        (tx : Transaction) (chain : ℤ)
        → encode_execute_calldata eth signed ≡ ok tx.input
        → tx.to ≡ signed.domain.verifying_contract
        → node.chain_id ≡ ok chain
        → Halts (eth.sign_tx tx chain key) r
        → Stops key r

  -- Either nothing is sent, and the result is that of a cause in `Stops`, or exactly one transaction
  -- is sent, which may be sent, and the result is its hash if the node took it and else what the
  -- node answered.
  abbrev pub Attempts : PrivateKey → Traced Hash → Type 0
  Attempts key (r, t) =
      ((sent t ≡ []) × Stops key r)
      ⊎ ((tx : Bytes) × (sent t ≡ tx ∷ [])
          × MaySend key tx
          × (((node.send_transaction tx ≡ ok tt) × (r ≡ ok (eth.tx_hash tx)))
              ⊎ Halts (node.send_transaction tx) r))

  -- A request that sends nothing keeps an attempt one.
  Attempts-ask :
      {A : Type 0} (key : PrivateKey) (q : Request) (answer : Outcome A) (f : A → Traced Hash)
      → ((t : List Request) → sent (q ∷ t) ≡ sent t)
      → ((r : Outcome Hash) → Halts answer r → Stops key r)
      → ((a : A) → answer ≡ ok a → Attempts key (f a))
      → Attempts key (ask q answer >>= f)
  Attempts-ask key q (ok a) f quiet stop step = elim (step a refl) [
    | inl (e, stopped) ↦ inl (quiet (f a).1 ∙ e, stopped)
    | inr (tx, e, may, r) ↦ inr (tx, quiet (f a).1 ∙ e, may, r)
  ]
  Attempts-ask key q (err e) f quiet stop step = inl (quiet [], stop (err e) (inl (e, refl, refl)))
  Attempts-ask key q panic f quiet stop step = inl (quiet [], stop panic (inr (refl, refl)))

  -- So does a computation that asks nothing.
  Attempts-pure :
      {A : Type 0} (key : PrivateKey) (answer : Outcome A) (f : A → Traced Hash)
      → ((r : Outcome Hash) → Halts answer r → Stops key r)
      → ((a : A) → answer ≡ ok a → Attempts key (f a))
      → Attempts key (pure answer >>= f)
  Attempts-pure key (ok a) f stop step = step a refl
  Attempts-pure key (err e) f stop step = inl (refl, stop (err e) (inl (e, refl, refl)))
  Attempts-pure key panic f stop step = inl (refl, stop panic (inr (refl, refl)))

  Attempts-send :
      (key : PrivateKey) (tx : Bytes) (answer : Checked)
      → node.send_transaction tx ≡ answer
      → MaySend key tx
      → Attempts key (ask (sends tx) answer >>= λ _. pure (ok (eth.tx_hash tx)))
  Attempts-send key tx (ok done) e may = inr (tx, refl, may, inl (e, refl))
  Attempts-send key tx (err reason) e may = inr (tx, refl, may, inr (inl (reason, e, refl)))
  Attempts-send key tx panic e may = inr (tx, refl, may, inr (inr (e, refl)))

  pub submit-Attempts :
      (key : PrivateKey) (sig : Signature) (input : Bytes)
      → signed.signature ≡ some sig
      → (signed.authorization.kind ≢ receive)
        ⊎ (eth.pubkey_to_address key.public_key ≡ signed.authorization.to)
      → encode_execute_calldata eth signed ≡ ok input
      → Attempts key (
          submit eth node
            (eth.pubkey_to_address key.public_key)
            signed.domain.verifying_contract
            key
            input)
  unfolding submit
  submit-Attempts key sig input is_signed by_recipient encoded =
      Attempts-ask key asks_chain_id node.chain_id _ (λ t. refl) (λ r. no_chain)
        λ chain on_chain.
          Attempts-ask key (asks_nonce _) (node.pending_nonce_at _) _ (λ t. refl) (λ r. no_nonce)
            λ nonce next_nonce.
              Attempts-ask key asks_gas_price node.suggest_gas_price _ (λ t. refl) (λ r. no_price)
                λ price suggested.
                  Attempts-ask key (asks_estimate _) (node.estimate_gas _) _ (λ t. refl)
                    (λ r. no_estimate input encoded)
                    λ estimate estimated.
                      Attempts-pure key (eth.sign_tx _ chain key) _
                        (λ r. not_signed _ chain encoded refl on_chain)
                        λ tx signed_tx.
                          Attempts-send key tx (node.send_transaction tx) refl (record {
                            signature = sig;
                            is_signed = is_signed;
                            by_recipient = by_recipient;
                            input = input;
                            encoded = encoded;
                            chain = chain;
                            on_chain = on_chain;
                            nonce = nonce;
                            next_nonce = next_nonce;
                            price = price;
                            suggested = suggested;
                            estimate = estimate;
                            estimated = estimated;
                            signed_tx = signed_tx;
                          })
