-- ===== src/Tests.antt =====
-- The theorems at concrete inputs.
mod Data
mod Validators
mod Profiles
mod Auth
mod Signing
mod Routes
mod Client
mod Startup
mod Inspection
mod Bundle
mod Endpoints
mod Commands
mod Renewed
mod Main
