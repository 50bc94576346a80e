-- ===== src/Parser.antt =====
-- The protocol parsers of src/parser/ and include/parser/.
pub mod Field
pub mod Hello
pub mod Auth
pub mod Request
pub mod Reply
pub mod Prawtos
