-- ===== src/Bolt/Message/Total.antt =====
-- Every message of bolt/src/lib.rs encodes, whatever the type of errors is: its type, and a body.
use ln_gossip_sim.Base.{◌≡◌, refl, sym, ap, ◌∙◌, ◌++◌, Bytes, ok, ◌>>=◌}
use ln_gossip_sim.Bitcoin.{Bitcoin, BitcoinLaws}
use ln_gossip_sim.Bolt.Types.{BoltError}
use ln_gossip_sim.Bolt.Wire.{u16}
use ln_gossip_sim.Bolt.Init.RoundTrip as InitRoundTrip
use ln_gossip_sim.Bolt.OpenChannel.RoundTrip as OpenChannelRoundTrip
use ln_gossip_sim.Bolt.QueryChannelRange.RoundTrip as QueryChannelRangeRoundTrip
use ln_gossip_sim.Bolt.ReplyChannelRange.RoundTrip as ReplyChannelRangeRoundTrip
use ln_gossip_sim.Bolt.Message.{
  Message, init, open_channel, query_channel_range, reply_channel_range, warning, error, ping, pong,
  funding_created, channel_announcement, node_announcement, channel_update, unknown, encode,
  encode_body, msg_type, decode,
}
use ln_gossip_sim.Bolt.Message.RoundTrip.{IsValid, decode-encode}

-- The same bytes for every type of errors.
abbrev pub Encodes : (b : Bitcoin) → Message b → Bytes → Type 1
Encodes b m body = (E : Type 0) → encode {E = E} b m ≡ ok (u16.write (msg_type b m) ++ body)

pub encode-total : (b : Bitcoin) (m : Message b) → (body : Bytes) × Encodes b m body
unfolding encode encode_body msg_type
encode-total b (init m) =
    (_, λ E. ap (λ r. r >>= λ body. ok (u16.write 16 ++ body)) (InitRoundTrip.encode_lem m))
encode-total b (open_channel m) = (
  _,
  λ E. ap (λ r. r >>= λ body. ok (u16.write 32 ++ body)) (OpenChannelRoundTrip.encode_lem b m),
)
encode-total b (query_channel_range m) = (
  _,
  λ E. ap (λ r. r >>= λ body. ok (u16.write 263 ++ body)) (QueryChannelRangeRoundTrip.encode_lem m),
)
encode-total b (reply_channel_range m) = (
  _,
  λ E. ap (λ r. r >>= λ body. ok (u16.write 264 ++ body)) (ReplyChannelRangeRoundTrip.encode_lem m),
)
encode-total b (warning m) = (_, λ E. refl)
encode-total b (error m) = (_, λ E. refl)
encode-total b (ping m) = (_, λ E. refl)
encode-total b (pong m) = (_, λ E. refl)
encode-total b (funding_created m) = (_, λ E. refl)
encode-total b (channel_announcement m) = (_, λ E. refl)
encode-total b (node_announcement m) = (_, λ E. refl)
encode-total b (channel_update m) = (_, λ E. refl)
encode-total b (unknown t payload) = (payload, λ E. refl)

-- What a valid message encodes to is read back.
pub decode-encoded :
    {E : Type 0} (b : Bitcoin)
    → BitcoinLaws b
    → (m : Message b) (wire : Bytes) → IsValid b m
    → encode {E = E} b m ≡ ok wire
    → decode b wire ≡ ok m
decode-encoded {E} b bl m wire v e =
    let (body, encodes) = encode-total b m in
    let whole : u16.write (msg_type b m) ++ body ≡ wire = cc (encodes E) in
    let again : encode {E = BoltError} b m ≡ ok wire = encodes BoltError ∙ ap ok whole in
    ap (λ r. r >>= decode b) (sym again) ∙ decode-encode b bl m v
