-- ===== src/Noise/NoiseError.antt =====
-- noise/src/error.rs
use ln_gossip_sim.Base.{ℕ}

-- `io` is an error of the connection, whose text is left out.
pub data NoiseError : Type 0 where
  act_one_bad_version : ℕ → NoiseError
  act_one_bad_pubkey act_one_bad_tag : NoiseError
  act_two_bad_version : ℕ → NoiseError
  act_two_bad_pubkey act_two_bad_tag : NoiseError
  act_three_bad_version : ℕ → NoiseError
  act_three_bad_ciphertext act_three_bad_pubkey act_three_bad_tag : NoiseError
  decryption_failed handshake_incomplete invalid_state io : NoiseError
