-- ===== src/Auth.antt =====
-- appliance/auth.py: the token, dashboard sessions, one-time login links and the files of the secrets.
pub mod State
pub mod Laws
pub mod Secrets
pub mod Keeping
