-- ===== src/Bolt/Message/Sizes.antt =====
-- The sizes of encoded messages against the largest packet of the transport, 65535 bytes.
use Prim.Native.Nat.{min}
use ln_gossip_sim.Base.{
  ℕ, ◌+◌, ◌≤◌, ◌<◌, ◌≡◌, refl, arith, true, leb, ◌++◌, length, length-append, length-replicate,
  replicate, Bytes, ok,
}
use ln_gossip_sim.Bitcoin.{Bitcoin}
use ln_gossip_sim.Bolt.Types.{max_message_size}
use ln_gossip_sim.Bolt.Wire.{u16, vec, channel_id}
use ln_gossip_sim.Bolt.Wire.Lengths.{length-uint, length-vec, length-channel_id}
use ln_gossip_sim.Bolt.Ping.{Ping}
use ln_gossip_sim.Bolt.Pong
use ln_gossip_sim.Bolt.Pong.{respond_to}
use ln_gossip_sim.Bolt.Error
use ln_gossip_sim.Bolt.Error.{Error, for_channel}
use ln_gossip_sim.Bolt.Message.{error, pong, encode, encode_body, msg_type}

-- The answer to any ping encodes, to four bytes more than the padding that was asked for or, where the
-- ping asks for more than 65531 bytes, than 65531, and so it fits into a packet.
pub respond_to_fits :
    {E : Type 0} (b : Bitcoin) (ping : Ping)
    → (bytes : Bytes) × (encode {E = E} b (pong (respond_to ping)) ≡ ok bytes)
      × (length bytes ≡ 4 + min ping.num_pong_bytes 65531)
      × (length bytes ≤ max_message_size)
unfolding encode encode_body msg_type respond_to Pong.new Pong.encode
respond_to_fits b ping =
    let size = min ping.num_pong_bytes 65531 in
    let body = vec.write (replicate size 0) in
    let len : length (u16.write 19 ++ body) ≡ 4 + size = omega (
      arith,
      length-append (u16.write 19) body,
      length-uint 2 19,
      length-vec (replicate size 0),
      length-replicate {A = ℕ} size 0,
    ) in
    (u16.write 19 ++ body, refl, len, omega arith)

-- A text of 65500 bytes up to the limit of the constructor is accepted and encodes, and the encoded
-- message does not fit into a packet.
pub for_channel_oversized :
    {E : Type 0} (b : Bitcoin) (id msg : Bytes)
    → length id ≡ 32
    → 65500 ≤ length msg
    → length msg ≤ max_message_size
    → (m : Error) × (for_channel {E = E} id msg ≡ ok m)
      × (bytes : Bytes) × (encode {E = E} b (error m) ≡ ok bytes)
      × (max_message_size < length bytes)
unfolding for_channel encode encode_body msg_type Error.encode
for_channel_oversized b id msg size long short =
    let accepted : leb (length msg) max_message_size ≡ true = ground arith in
    let body = channel_id.write id ++ vec.write msg in
    (
      record { channel_id = id; contents = msg },
      rw accepted,
      u16.write 17 ++ body,
      refl,
      omega (
        arith,
        length-append (u16.write 17) body,
        length-uint 2 17,
        length-append (channel_id.write id) (vec.write msg),
        length-channel_id id,
        length-vec msg,
      ),
    )
