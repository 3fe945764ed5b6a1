-- ===== src/Crypto.antt =====
-- crypto/: the hybrid scheme over OpenSSL, and the server's key pair.
pub mod OpenSsl
pub mod Wire
pub mod Hex
pub mod Base64
pub mod Balance
pub mod HybridCrypto
pub mod ServerKey
pub mod Release
pub mod Laws
pub mod Returns
pub mod Sealing
pub mod Roundtrip
pub mod Service
