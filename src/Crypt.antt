-- ===== src/Crypt.antt =====
-- firmware/crypt: the user space command handler of the self-encrypting disk.
pub mod Nvme
pub mod Evp
pub mod Aes
pub mod Lba
pub mod Handler
pub mod Main
pub mod Spec
