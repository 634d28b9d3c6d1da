-- ===== src/Abi.antt =====
-- The ABI definitions of internal/eip3009/calldata.go and client.go, as `mustParseABI` reads them from
-- their JSON texts.
use eip.Prelude.{[], ◌∷◌, codes}
use eip.Ethereum.{Abi, address, uint256, bytes32, uint8, bool, string}

abbrev pub eip3009_abi : Abi
eip3009_abi =
    record {
      name = codes "transferWithAuthorization";
      inputs =
          address ∷ address ∷ uint256 ∷ uint256 ∷ uint256 ∷ bytes32 ∷ uint8 ∷ bytes32 ∷ bytes32
          ∷ [];
      outputs = [];
    }
    ∷ record {
      name = codes "receiveWithAuthorization";
      inputs =
          address ∷ address ∷ uint256 ∷ uint256 ∷ uint256 ∷ bytes32 ∷ uint8 ∷ bytes32 ∷ bytes32
          ∷ [];
      outputs = [];
    }
    ∷ record {
      name = codes "cancelAuthorization";
      inputs = address ∷ bytes32 ∷ uint8 ∷ bytes32 ∷ bytes32 ∷ [];
      outputs = [];
    }
    ∷ record {
      name = codes "authorizationState";
      inputs = address ∷ bytes32 ∷ [];
      outputs = bool ∷ [];
    }
    ∷ record {
      name = codes "TRANSFER_WITH_AUTHORIZATION_TYPEHASH";
      inputs = [];
      outputs = bytes32 ∷ [];
    }
    ∷ record {
      name = codes "RECEIVE_WITH_AUTHORIZATION_TYPEHASH";
      inputs = [];
      outputs = bytes32 ∷ [];
    }
    ∷ record { name = codes "CANCEL_AUTHORIZATION_TYPEHASH"; inputs = []; outputs = bytes32 ∷ [] }
    ∷ []

abbrev pub erc20_metadata_abi : Abi
erc20_metadata_abi =
    record { name = codes "decimals"; inputs = []; outputs = uint8 ∷ [] }
    ∷ record { name = codes "symbol"; inputs = []; outputs = string ∷ [] }
    ∷ record { name = codes "name"; inputs = []; outputs = string ∷ [] }
    ∷ record { name = codes "version"; inputs = []; outputs = string ∷ [] }
    ∷ []
