-- ===== src/Bolt/Message/Answers.antt =====
-- The messages that are sent as answers, bolt/src/lib.rs: they encode, whatever the type of errors.
use ln_gossip_sim.Base.{◌≡◌, refl, ap, ◌++◌, ok, ◌>>=◌}
use ln_gossip_sim.Bitcoin.{Bitcoin}
use ln_gossip_sim.Bolt.Wire.{u16}
use ln_gossip_sim.Bolt.Tlv
use ln_gossip_sim.Bolt.Pong
use ln_gossip_sim.Bolt.Pong.{Pong}
use ln_gossip_sim.Bolt.ReplyChannelRange.{ReplyChannelRange}
use ln_gossip_sim.Bolt.ReplyChannelRange.RoundTrip.{front_of, stream_of, encode_lem}
use ln_gossip_sim.Bolt.Message.{pong, reply_channel_range, encode, encode_body, msg_type}

pub encode-pong :
    {E : Type 0} (b : Bitcoin) (p : Pong)
    → encode {E = E} b (pong p) ≡ ok (u16.write 19 ++ Pong.encode p)
unfolding encode encode_body msg_type
encode-pong b p = refl

pub encode-reply_channel_range :
    {E : Type 0} (b : Bitcoin) (m : ReplyChannelRange)
    → encode {E = E} b (reply_channel_range m)
      ≡ ok (u16.write 264 ++ front_of m (Tlv.encode (stream_of m)))
unfolding encode encode_body msg_type
encode-reply_channel_range b m = ap (λ r. r >>= λ body. ok (u16.write 264 ++ body)) (encode_lem m)
