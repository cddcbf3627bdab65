-- ===== src/Noise/Handshake.antt =====
-- noise/src/handshake.rs: the Noise_XK handshake of BOLT 8 as a state machine. A method returns its
-- outcome and the state that it leaves, also where it fails. The secp256k1 context has no state.
use ln_gossip_sim.Base.{
  ℕ, Bool, true, false, not, Option, none, some, [], ◌∷◌, ◌++◌, ◌==◌, if◌then◌else◌, length, take,
  drop, Bytes, Outcome, ok, err, panic, map_err,
}
use ln_gossip_sim.Base.State.{
  Method, continue, ◌>>=◌, ◌>>◌, return, throw, call, this, modify, expect, ok_or,
}
use ln_gossip_sim.Bitcoin.{Bitcoin}
use ln_gossip_sim.Crypto.{Crypto}
use ln_gossip_sim.Noise.NoiseError.{
  NoiseError, act_one_bad_version, act_one_bad_pubkey, act_one_bad_tag, act_two_bad_version,
  act_two_bad_pubkey, act_two_bad_tag, act_three_bad_version, act_three_bad_ciphertext,
  act_three_bad_pubkey, act_three_bad_tag, handshake_incomplete, invalid_state,
}
use ln_gossip_sim.Noise.Cipher.{encrypt_with_ad, decrypt_with_ad, hkdf_two_keys}
use ln_gossip_sim.Noise.NoiseCipher
use ln_gossip_sim.Noise.NoiseCipher.{NoiseCipher}
pub mod Initiator
pub mod Responder
pub mod Agreement
pub mod States

pub data Role : Type 0 where
  initiator responder : Role

pub data HandshakeState : Type 0 where
  initiator_start initiator_awaiting_act_two responder_start : HandshakeState
  responder_awaiting_act_three complete : HandshakeState

infix 50 ◌is◌
abbrev pub ◌is◌ : HandshakeState → HandshakeState → Bool
initiator_start is initiator_start = true
initiator_awaiting_act_two is initiator_awaiting_act_two = true
responder_start is responder_start = true
responder_awaiting_act_three is responder_awaiting_act_three = true
complete is complete = true
_ is _ = false

-- `b"Noise_XK_secp256k1_ChaChaPoly_SHA256"`
abbrev pub protocol_name : Bytes
protocol_name =
    b'N' ∷ b'o' ∷ b'i' ∷ b's' ∷ b'e' ∷ b'_' ∷ b'X' ∷ b'K' ∷ b'_' ∷ b's' ∷ b'e' ∷ b'c' ∷ b'p' ∷ b'2'
    ∷ b'5' ∷ b'6' ∷ b'k' ∷ b'1' ∷ b'_' ∷ b'C' ∷ b'h' ∷ b'a' ∷ b'C' ∷ b'h' ∷ b'a' ∷ b'P' ∷ b'o'
    ∷ b'l' ∷ b'y' ∷ b'_' ∷ b'S' ∷ b'H' ∷ b'A' ∷ b'2' ∷ b'5' ∷ b'6' ∷ []

-- `b"lightning"`
abbrev pub prologue : Bytes
prologue = b'l' ∷ b'i' ∷ b'g' ∷ b'h' ∷ b't' ∷ b'n' ∷ b'i' ∷ b'n' ∷ b'g' ∷ []

abbrev pub version : ℕ
version = 0

pub record NoiseHandshake (b : Bitcoin) : Type 0 where
  pub role : Role
  pub state : HandshakeState
  pub ck : Bytes
  pub h : Bytes
  pub local_static : b.SecretKey
  pub local_ephemeral : b.SecretKey
  pub remote_static : Option b.PublicKey
  pub remote_ephemeral : Option b.PublicKey
  pub temp_k2 : Option Bytes

-- The parts of an act, an array of 50 or 66 bytes: the version byte, a field of `size` bytes, and
-- what follows it.
abbrev pub act_version : Bytes → ℕ
act_version [] = 0
act_version (v ∷ rest) = v

abbrev pub act_field : ℕ → Bytes → Bytes
act_field size [] = []
act_field size (v ∷ rest) = take size rest

abbrev pub act_tail : ℕ → Bytes → Bytes
act_tail size [] = []
act_tail size (v ∷ rest) = drop size rest

-- `target.copy_from_slice(bytes)` for a target of `size` bytes, which panics on another length.
unfoldable pub copy : {E : Type 0} → ℕ → Bytes → Outcome E Bytes
copy size bytes = if length bytes == size then ok bytes else panic

-- `ecdh` is the shared secret of a secret key and a public key, a function of the curve's library.
module _ (b : Bitcoin) (c : Crypto) (ecdh : b.SecretKey → b.PublicKey → Bytes) where
  -- The chaining key and the handshake hash at the start.
  unfoldable pub initialize_state : b.PublicKey → Bytes × Bytes
  initialize_state responder_static =
      let ck = c.sha256 protocol_name in
      let h = c.sha256 (ck ++ prologue) in (ck, c.sha256 (h ++ b.serialize responder_static))

  unfoldable pub new_initiator :
      (local_static local_ephemeral : b.SecretKey) → b.PublicKey → NoiseHandshake b
  new_initiator local_static local_ephemeral remote_static =
      let (ck, h) = initialize_state remote_static in
      record {
        role = initiator;
        state = initiator_start;
        ck = ck;
        h = h;
        local_static = local_static;
        local_ephemeral = local_ephemeral;
        remote_static = some remote_static;
        remote_ephemeral = none;
        temp_k2 = none;
      }

  unfoldable pub new_responder : (local_static local_ephemeral : b.SecretKey) → NoiseHandshake b
  new_responder local_static local_ephemeral =
      let (ck, h) = initialize_state (b.from_secret_key local_static) in
      record {
        role = responder;
        state = responder_start;
        ck = ck;
        h = h;
        local_static = local_static;
        local_ephemeral = local_ephemeral;
        remote_static = none;
        remote_ephemeral = none;
        temp_k2 = none;
      }

  unfoldable pub mix_hash : Bytes → NoiseHandshake b → NoiseHandshake b
  mix_hash bytes s = record s { h = c.sha256 (s.h ++ bytes) }

  -- `let (ck, temp_k) = hkdf_two_keys(&self.ck, &secret); self.ck = ck;`
  unfoldable pub mix_key : Bytes → Method (NoiseHandshake b) NoiseError Bytes
  mix_key secret s =
      let (ck, temp_k) = hkdf_two_keys c s.ck secret in (ok temp_k, record s { ck = ck })

  -- The guard in front of each act.
  unfoldable pub require : HandshakeState → Method (NoiseHandshake b) NoiseError (Unit {0})
  require wanted s = if s.state is wanted then (ok tt, s) else (err invalid_state, s)

  unfoldable pub require_version :
      (ℕ → NoiseError) → ℕ → Method (NoiseHandshake b) NoiseError (Unit {0})
  require_version e v s = if v == version then (ok tt, s) else (err (e v), s)
