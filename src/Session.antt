-- ===== src/Session.antt =====
-- The states of a proxied connection: src/stm/, over the engine of src/stm/stm.c.
pub mod Copy
pub mod Hello
pub mod Request
pub mod Machine
