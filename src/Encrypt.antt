-- ===== src/Encrypt.antt =====
-- The encryption of tokens (lib/src/encrypt; misc/pam-module/auth/utils.c has copies of it).
pub mod Aes
pub mod Rsa
