-- ===== src/Examples/Noises.antt =====
-- The theorems on the cipher and on the handshake at small inputs.
use ln_gossip_sim.Base.{◌≡◌, refl, arith, [], ◌∷◌, replicate, Bytes}
use ln_gossip_sim.Noise.SendCipher
use ln_gossip_sim.Noise.SendCipher.{SendCipher}
use ln_gossip_sim.Noise.RecvCipher.{RecvCipher}
use ln_gossip_sim.Noise.NoiseCipher
use ln_gossip_sim.Noise.NoiseCipher.{NoiseCipher}
use ln_gossip_sim.Noise.Rotation.{rotated, SendsAfter, ReceivesAfter, send_at, maybe_rotate-send_at}
use ln_gossip_sim.Noise.Transport.{Carries, packet}
use ln_gossip_sim.Noise.Handshake.{NoiseHandshake, new_initiator}
use ln_gossip_sim.Noise.Handshake.Agreement.{Agreed, handshake_agrees}
use ln_gossip_sim.Examples.Instances.{bitcoin, bitcoin_laws, crypto, crypto_laws, Block, blank}

abbrev key : Bytes
key = replicate 32 1

abbrev chain : Bytes
chain = replicate 32 2

-- The halves when the thousandth operation has been done, so that a rotation is due.
abbrev sender : SendCipher
sender = record { key = key; nonce = 1000; ck = chain }

abbrev receiver : RecvCipher
receiver = record { key = key; nonce = 1000; ck = chain }

sender-SendsAfter : SendsAfter crypto chain key 1000 sender
unfolding rotated
sender-SendsAfter = record {
  epoch = 0;
  counted = refl;
  bounded = omega arith;
  ck_is = refl;
  key_is = refl;
}

receiver-ReceivesAfter : ReceivesAfter crypto chain key 1000 receiver
unfolding rotated
receiver-ReceivesAfter = record {
  epoch = 0;
  counted = refl;
  bounded = omega arith;
  ck_is = refl;
  key_is = refl;
}

maybe_rotate-send_at_example : SendCipher.maybe_rotate crypto sender ≡ send_at crypto chain key 1000
maybe_rotate-send_at_example = maybe_rotate-send_at crypto chain key 1000 sender sender-SendsAfter

packet_example :
    (header : Bytes) × (body : Bytes) × Carries crypto chain key 1000 sender receiver
      (5 ∷ 6 ∷ [])
      header
      body
packet_example =
    packet crypto chain key crypto_laws 1000 sender receiver (5 ∷ 6 ∷ []) sender-SendsAfter
      receiver-ReceivesAfter (omega arith)

abbrev whole : NoiseCipher
whole = NoiseCipher.new key key chain

-- All parties share one point here.
abbrev pub shared_point : Block 33 → Block 33 → Bytes
shared_point sk pk = replicate 32 3

pub shared_point_symmetric : (x y : Block 33) → shared_point x y ≡ shared_point y x
shared_point_symmetric x y = refl

handshake_agrees_example :
    Agreed bitcoin crypto shared_point (blank 33) (blank 33) (blank 33) (blank 33)
handshake_agrees_example =
    handshake_agrees bitcoin crypto shared_point bitcoin_laws crypto_laws shared_point_symmetric
      (blank 33) (blank 33) (blank 33) (blank 33)

abbrev fresh : NoiseHandshake bitcoin
fresh = new_initiator bitcoin crypto shared_point (blank 33) (blank 33) (blank 33)
