-- ===== src/Abi.antt =====
-- callapi/utils.go: texts in the encoding of contract calls.
pub mod Strings
pub mod Unpacked
pub mod Packed
pub mod Tests
