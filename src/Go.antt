-- ===== src/Go.antt =====
-- What the program uses of Go's standard library: `strings`, `math/big`, `encoding/hex` and
-- `encoding/json`.
pub mod Strings
pub mod Big
pub mod Hex
pub mod Json
pub mod Strconv
