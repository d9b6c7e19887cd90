-- ===== src/Auth.antt =====
-- lib/src/auth: the library that clients of the authentication service link to.
pub mod Limits
pub mod Prompt
pub mod Deal
pub mod Texts
pub mod Life
pub mod Calls
pub mod Properties
pub mod Signals
