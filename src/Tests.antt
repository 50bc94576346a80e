-- ===== src/Tests.antt =====
-- Runs of the model on small inputs, and an instance of each property with a hypothesis.
pub mod Buffers
pub mod Selectors
pub mod Parsers
pub mod Machines
pub mod Accounts
pub mod Sniffers
pub mod Sessions
pub mod Answers
pub mod Greetings
pub mod Requests
pub mod Runs
pub mod Proxies
pub mod Administrators
pub mod Texts
