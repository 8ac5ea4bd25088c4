-- ===== src/PublicFunction.antt =====
-- public_function.cpp. An `unsigned char` is a number below 2 ^ 8, an `unsigned int` one below 2 ^ 32.
pub mod Bcd
pub mod Crc
pub mod Bcc
mod Examples
