-- ===== src/Fixtures.antt =====
-- Concrete data that the tests of several modules share, over the sample of go-ethereum.
use eip.Prelude.{[], ◌∷◌, ◌++◌, some, replicate, codes, pos}
use eip.Types.{
  Address, Hash, Domain, Authorization, Signature, SignedAuthorization, transfer, zero_address,
}
use eip.Ethereum.{PrivateKey}

-- The key whose sample address ends in 5.
abbrev pub key : PrivateKey
key = record { public_key = record { x = 5; y = 6 }; d = 1 }

abbrev pub key_address : Address
key_address = replicate 19 7 ++ 5 ∷ []

abbrev pub recipient : Address
recipient = replicate 20 2

abbrev pub usd_domain : Domain
usd_domain = record {
  name = codes "USD Coin";
  version = codes "2";
  chain_id = some (pos 1);
  verifying_contract = replicate 20 9;
}

abbrev pub nonce : Hash
nonce = replicate 32 3

abbrev pub payment : Authorization
payment = record {
  kind = transfer;
  from = key_address;
  to = recipient;
  value = some (pos 1000000);
  valid_after = 0;
  valid_before = 1740000000;
  nonce = nonce;
  authorizer = zero_address;
}

abbrev pub payment_signature : Signature
payment_signature = record { v = 27; r = 5 ∷ replicate 31 0; s = 6 ∷ replicate 31 0 }

abbrev pub signed_payment : SignedAuthorization
signed_payment = record {
  authorization = payment;
  domain = usd_domain;
  signature = some payment_signature;
}
