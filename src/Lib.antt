-- ===== src/Lib.antt =====
-- The eip3009 command line tool: it creates, checks, signs, decodes and broadcasts EIP-3009
-- authorizations (transferWithAuthorization, receiveWithAuthorization, cancelAuthorization) for an
-- ERC-20 token. This library models its core and proves what makes it correct.
--
-- How the parts of the program work together. An `Authorization` for a `Domain` is validated,
-- hashed as EIP-712 typed data and signed (internal/eip3009/types.go, eip712.go). A signed
-- authorization is printed as a JSON object and read back (json.go, message.go), encoded as the
-- calldata of a call of the token, or decoded from it (calldata.go), and broadcast in a
-- transaction by way of a node, which can be asked first what the token supports (client.go).
-- Token amounts are read and printed in units of the token's decimals (amount.go). The command
-- line decides what is done with a signature whose v is 0 or 1, and until when an authorization is
-- valid, and builds from its flags what the commands sign and cancel return (internal/cli/cli.go).
--
-- Files.
--   Prelude, Outcome   numbers, lists, tests; an outcome is a value, a returned error or a panic
--   Go/Strings         trimming, lower case, cutting and repeating, of Go's package strings
--   Go/Big             decimal text of math/big: `String`, `SetString` and `Exp` to the base 10
--   Go/Hex             package encoding/hex: both directions, and what is read back
--   Go/Json            package encoding/json: `Unmarshal` into a map of raw messages and into a string,
--                      the encoder, and what is read back of what it prints
--   Go/Strconv         `Quote` of package strconv
--   Types              internal/eip3009/types.go, but for signing; Types/Checks on the validators
--   Ethereum           the functions of go-ethereum that are called, as a record; Ethereum/Laws what is
--                      relied on, Ethereum/Sample and SampleLaws an instance that keeps all of it
--   Abi                the interface tables of calldata.go and client.go
--   Eip712             eip712.go: DomainSeparator, AuthorizationStructHash, TypedDataHash
--   Signing            SignAuthorization and RecoverAuthorizationSigner of types.go,
--                      VerifySignedAuthorization of eip712.go, SignatureBytes of json.go
--   Raw                message.go: the readers of one value
--   Message            message.go: ParseMessageJSON
--   Objects            json.go: TypedDataObject, SignedAuthorizationObject, ExtractionObject
--   Calldata           calldata.go: EncodeExecuteCalldata, DecodeExecuteCalldata
--   Amount             amount.go: ParseTokenValue, parseHumanAmount, FormatTokenValue
--   Support            client.go: CheckEIP3009Support and the token metadata
--   Client             client.go: BroadcastAuthorization
--   Values             json.go: ParseAddressValue, ParseHashValue, ParseBigIntValue, ParseUint64Value
--   Cli                internal/cli/cli.go: resolveSignatureVForBroadcast, resolveValidBefore
--   Console            cli.go: loadPrivateKey, readPassword, readInputArg, readAuthorizationInput;
--                      random.go
--   Commands           cli.go: buildSignedAuthorization, buildCancelAuthorization and what they call,
--                      runBroadcast; Run is `dispatch`, Commands/Dispatch/Names has the words of the
--                      command line and ExitCodes what becomes of them
--   Fixtures           the payment that the examples use
-- A function of the source has the same name in small letters here; a long one is cut at its early
-- returns into parts whose comments say which. A child module named for a property holds its proof.
--
-- Representation. Strings, byte slices, addresses and hashes are lists of bytes. A nil pointer, a nil
-- `*big.Int` and a missing signature are `none`. A uint64 and a uint8 are native numbers with the
-- wrap-around written out where the source computes with them. A failed index, slice or type
-- assertion is a panic, which no later step undoes. Error texts are constructors of `Error`.
-- What a broadcast asks of the node, and what a prompt prints, is a list in order.
--
-- Bounds. The only recursion on fuel prints a number: `digits_fuel` takes the number of digits it may
-- write, one more than the number itself, and the value of what it writes is proved to be that number,
-- so the fuel is always enough. All else is structural recursion.
--
-- Not modelled. go-ethereum, crypto/ecdsa, the node, the terminal, the files and the random source are
-- parameters. The flag sets, the commands' outer functions but for runBroadcast, and the writing of
-- the output are left out, as are the Solidity sample token and the scripts.
mod Prelude
mod Outcome
pub mod Go
pub mod Amount
pub mod Types
pub mod Ethereum
pub mod Abi
pub mod Eip712
pub mod Signing
pub mod Raw
pub mod Message
pub mod Objects
pub mod Values
pub mod Calldata
pub mod Support
pub mod Client
pub mod Cli
pub mod Console
pub mod Commands
mod Fixtures
