-- ===== src/Identity.antt =====
-- libs/identity: accounts, one-time codes, sessions, throttles and password recovery.
pub mod Contracts
pub mod Exec
pub mod Store
pub mod Runtime
pub mod Throttle
pub mod Otp
pub mod Session
pub mod Jwt
pub mod Tokens
pub mod Users
pub mod Reset
pub mod Auth
pub mod Access
pub mod Outbox
pub mod Ports
pub mod Controller
pub mod Bodies
pub mod Passwords
