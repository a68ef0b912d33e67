-- ===== src/Json.antt =====
-- src/json.c, the encoder that the writer uses.
pub mod Escape
pub mod Literal
pub mod Prefix
mod Tests
