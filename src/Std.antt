-- ===== src/Std.antt =====
-- What the program uses of Rust's standard library: byte-exact texts, maps, clocks, network
-- addresses, and readers that hand out an exact number of bytes.
pub mod HashMap
pub mod Text
pub mod Path
pub mod Time
pub mod Net
pub mod Io
pub mod Bytes
pub mod Fs
