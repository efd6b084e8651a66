-- ===== src/Validators.antt =====
-- app/utils/validators.py: the checks on the fields of a signing request, one module for each kind.
pub mod Keys
pub mod Ttl
pub mod Principals
pub mod Options
