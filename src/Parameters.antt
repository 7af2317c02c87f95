-- ===== src/Parameters.antt =====
-- The parameters of an invocation: how encrypted ones are decrypted (pkg/encryption/decryptor.go),
-- and how all are divided (`ParseActivationMessage` of pkg/protocol/activation.go).
pub mod Decryption
pub mod Division
mod Tests
