-- ===== src/Http/Execute/Assertions.antt =====
-- The assertions of `http_parser_execute` of http_parser.c.
pub mod Fit
pub mod Safe
pub mod Callbacks
pub mod Plain
pub mod Names
pub mod Values
pub mod Calls
pub mod Chunks
pub mod Bodies
pub mod Dispatch
