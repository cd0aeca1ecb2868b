-- ===== src/Vault.antt =====
-- The Key Vault's store of secrets: internal/stores/keyvaultstore.
pub mod Store
pub mod Versions
pub mod History
mod Tests
