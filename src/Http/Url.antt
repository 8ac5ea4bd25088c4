-- ===== src/Http/Url.antt =====
-- `parse_url_char`, `http_parse_host` and `http_parser_parse_url` of http_parser.c.
pub mod Char
pub mod Fields
pub mod Host
pub mod Parse
pub mod Bounds
pub mod HostBounds
pub mod Safety
pub mod Checks
pub mod Result
