-- ===== src/Std.antt =====
-- The parts of the Go language and its standard library that the program calls.
pub mod Text
pub mod Result
pub mod Exec
pub mod Dict
pub mod Path
pub mod Int
pub mod Fmt
pub mod Strconv
pub mod Net
