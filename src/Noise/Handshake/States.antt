-- ===== src/Noise/Handshake/States.antt =====
-- How the acts move the state machine of the handshake.
use ln_gossip_sim.Base.{◌≡◌, Bytes, Outcome, ok, err, panic, stuck}
use ln_gossip_sim.Bitcoin.{Bitcoin}
use ln_gossip_sim.Crypto.{Crypto}
use ln_gossip_sim.Noise.NoiseError.{NoiseError}
use ln_gossip_sim.Noise.Handshake.{NoiseHandshake, HandshakeState}

module _ (b : Bitcoin) (c : Crypto) (ecdh : b.SecretKey → b.PublicKey → Bytes) where
  -- The outcome and the state that a method leaves: it reached `to` and returned a value, or it
  -- stands where it stood.
  abbrev pub Moves :
      {A : Type 0} → (from to : HandshakeState) → Outcome NoiseError A × NoiseHandshake b → Type 0
  Moves from to (ok a, s) = s.state ≡ to
  Moves from to (err e, s) = s.state ≡ from
  Moves from to (panic, s) = s.state ≡ from
  Moves from to (stuck, s) = s.state ≡ from
