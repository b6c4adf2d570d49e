-- ===== src/Std.antt =====
-- What the server uses of Go's standard library: package strconv, encoding/hex, sort and hash/fnv,
-- written as functions on lists of bytes.
pub mod Text
pub mod Paths
pub mod Strings
pub mod Decimal
pub mod Hex
pub mod Sort
pub mod Fnv
