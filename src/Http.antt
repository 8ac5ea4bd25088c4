-- ===== src/Http.antt =====
-- http_parser.c and http_parser.h, in the strict mode that is the default.
pub mod Chars
pub mod State
pub mod Url
pub mod Parser
pub mod Tokens
pub mod Method
pub mod Text
pub mod Execute
mod Examples
