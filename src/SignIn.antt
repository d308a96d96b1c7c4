-- ===== src/SignIn.antt =====
-- packages/vestibulum/src/lambda: the mailed-link sign-in, its Cognito triggers and their tables.
pub mod Values
pub mod Define
pub mod Counters
pub mod AllowList
pub mod Email
pub mod Verify
pub mod Decision
pub mod Create
pub mod PreSignup
pub mod Bounce
pub mod Signout
pub mod Flow
mod Tests
