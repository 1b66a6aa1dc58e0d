-- ===== src/Secrets.antt =====
-- Secrets in memory and passphrases (pkg/security/memory.go and cmd/cli/utils/password.go).
pub mod Memory
pub mod Passphrase
