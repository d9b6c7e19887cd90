-- ===== src/Pam.antt =====
-- The PAM module (misc/pam-module).
pub mod Codes
pub mod Types
pub mod State
pub mod Data
pub mod Limit
pub mod Limits
pub mod Verify
pub mod Factors
pub mod Dbus
pub mod Keys
pub mod Token
pub mod Sfa
pub mod Mfa
pub mod Success
pub mod Args
pub mod Files
pub mod Clean
pub mod Loop
pub mod Request
pub mod Open
pub mod Entry
pub mod MfaOrder
pub mod MfaRun
pub mod SfaFail
pub mod Protocol
pub mod Threads
