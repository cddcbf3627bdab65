-- ===== src/Noise.antt =====
-- The crate noise: the BOLT 8 handshake and encrypted transport.
pub mod NoiseError
pub mod Cipher
pub mod SendCipher
pub mod RecvCipher
pub mod NoiseCipher
pub mod Transport
pub mod Rotation
pub mod Handshake
pub mod Connection
