-- ===== src/Crypter.antt =====
-- SYN-SOFTWARE/syn-crypter-src: file encryption in four formats.
pub mod Ssl
pub mod Util
pub mod Gcm
mod Keeps
mod Guard
mod Whole
mod Faultless
mod Tests
pub mod Authentic
pub mod Aes
pub mod Blowfish
pub mod Rsa
pub mod Redshirt
pub mod Main
pub mod Cli
