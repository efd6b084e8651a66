-- ===== src/Client.antt =====
-- The client, src/zfcssh_client.
pub mod Errors
pub mod Certificates
pub mod Files
pub mod Bundle
pub mod KnownHosts
pub mod Machine
pub mod Broker
pub mod Keys
pub mod Commands
pub mod Main
pub mod Lifetimes
