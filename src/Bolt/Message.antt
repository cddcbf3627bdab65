-- ===== src/Bolt/Message.antt =====
-- bolt/src/lib.rs: a message of any type, with its two-byte type in front.
use ln_gossip_sim.Base.{
  ℕ, ◌%◌, ◌++◌, ◌==◌, if◌then◌else◌, Bytes, Outcome, ok, err, panic, stuck, ◌>>=◌,
}
use ln_gossip_sim.Bitcoin.{Bitcoin}
use ln_gossip_sim.Bolt.Types.{BoltError, unknown_even_type}
use ln_gossip_sim.Bolt.Wire.{u16}
use ln_gossip_sim.Bolt.MsgType
use ln_gossip_sim.Bolt.Warning
use ln_gossip_sim.Bolt.Warning.{Warning}
use ln_gossip_sim.Bolt.Init
use ln_gossip_sim.Bolt.Init.{Init}
use ln_gossip_sim.Bolt.Error
use ln_gossip_sim.Bolt.Error.{Error}
use ln_gossip_sim.Bolt.Ping
use ln_gossip_sim.Bolt.Ping.{Ping}
use ln_gossip_sim.Bolt.Pong
use ln_gossip_sim.Bolt.Pong.{Pong}
use ln_gossip_sim.Bolt.OpenChannel
use ln_gossip_sim.Bolt.OpenChannel.{OpenChannel}
use ln_gossip_sim.Bolt.FundingCreated
use ln_gossip_sim.Bolt.FundingCreated.{FundingCreated}
use ln_gossip_sim.Bolt.ChannelAnnouncement
use ln_gossip_sim.Bolt.ChannelAnnouncement.{ChannelAnnouncement}
use ln_gossip_sim.Bolt.NodeAnnouncement
use ln_gossip_sim.Bolt.NodeAnnouncement.{NodeAnnouncement}
use ln_gossip_sim.Bolt.ChannelUpdate
use ln_gossip_sim.Bolt.ChannelUpdate.{ChannelUpdate}
use ln_gossip_sim.Bolt.QueryChannelRange
use ln_gossip_sim.Bolt.QueryChannelRange.{QueryChannelRange}
use ln_gossip_sim.Bolt.ReplyChannelRange
use ln_gossip_sim.Bolt.ReplyChannelRange.{ReplyChannelRange}
pub mod RoundTrip
pub mod Sizes
pub mod Answers
pub mod Total
pub mod Echo

pub data Message (b : Bitcoin) : Type 0 where
  warning : Warning → Message b
  init : Init → Message b
  error : Error → Message b
  ping : Ping → Message b
  pong : Pong → Message b
  open_channel : OpenChannel b → Message b
  funding_created : FundingCreated b → Message b
  channel_announcement : ChannelAnnouncement b → Message b
  node_announcement : NodeAnnouncement b → Message b
  channel_update : ChannelUpdate b → Message b
  query_channel_range : QueryChannelRange → Message b
  reply_channel_range : ReplyChannelRange → Message b
  unknown : (msg_type : ℕ) → (payload : Bytes) → Message b

unfoldable pub msg_type : (b : Bitcoin) → Message b → ℕ
msg_type b (warning m) = MsgType.warning
msg_type b (init m) = MsgType.init
msg_type b (error m) = MsgType.error
msg_type b (ping m) = MsgType.ping
msg_type b (pong m) = MsgType.pong
msg_type b (open_channel m) = MsgType.open_channel
msg_type b (funding_created m) = MsgType.funding_created
msg_type b (channel_announcement m) = MsgType.channel_announcement
msg_type b (node_announcement m) = MsgType.node_announcement
msg_type b (channel_update m) = MsgType.channel_update
msg_type b (query_channel_range m) = MsgType.query_channel_range
msg_type b (reply_channel_range m) = MsgType.reply_channel_range
msg_type b (unknown t payload) = t

-- The encoding behind the type.
encode_body {ℓ} : {E : Type ℓ} → (b : Bitcoin) → Message b → Outcome E Bytes
encode_body b (warning m) = ok (Warning.encode m)
encode_body b (init m) = Init.encode m
encode_body b (error m) = ok (Error.encode m)
encode_body b (ping m) = ok (Ping.encode m)
encode_body b (pong m) = ok (Pong.encode m)
encode_body b (open_channel m) = OpenChannel.encode b m
encode_body b (funding_created m) = ok (FundingCreated.encode b m)
encode_body b (channel_announcement m) = ok (ChannelAnnouncement.encode b m)
encode_body b (node_announcement m) = ok (NodeAnnouncement.encode b m)
encode_body b (channel_update m) = ok (ChannelUpdate.encode b m)
encode_body b (query_channel_range m) = QueryChannelRange.encode m
encode_body b (reply_channel_range m) = ReplyChannelRange.encode m
encode_body b (unknown t payload) = ok payload

unfoldable pub encode {ℓ} : {E : Type ℓ} → (b : Bitcoin) → Message b → Outcome E Bytes
unfolding encode_body msg_type
encode b m = do body ← encode_body b m; ok (u16.write (msg_type b m) ++ body)

-- The `match` on the type.
decode_body : (b : Bitcoin) → ℕ → Bytes → Outcome BoltError (Message b)
decode_body b t cursor =
    if t == MsgType.warning
    then Warning.decode cursor >>= (λ m. ok (warning m))
    else if t == MsgType.init
    then Init.decode cursor >>= (λ m. ok (init m))
    else if t == MsgType.error
    then Error.decode cursor >>= (λ m. ok (error m))
    else if t == MsgType.ping
    then Ping.decode cursor >>= (λ m. ok (ping m))
    else if t == MsgType.pong
    then Pong.decode cursor >>= (λ m. ok (pong m))
    else if t == MsgType.open_channel
    then OpenChannel.decode b cursor >>= (λ m. ok (open_channel m))
    else if t == MsgType.funding_created
    then FundingCreated.decode b cursor >>= (λ m. ok (funding_created m))
    else if t == MsgType.channel_announcement
    then ChannelAnnouncement.decode b cursor >>= (λ m. ok (channel_announcement m))
    else if t == MsgType.node_announcement
    then NodeAnnouncement.decode b cursor >>= (λ m. ok (node_announcement m))
    else if t == MsgType.channel_update
    then ChannelUpdate.decode b cursor >>= (λ m. ok (channel_update m))
    else if t == MsgType.query_channel_range
    then QueryChannelRange.decode cursor >>= (λ m. ok (query_channel_range m))
    else if t == MsgType.reply_channel_range
    then ReplyChannelRange.decode cursor >>= (λ m. ok (reply_channel_range m))
    else if t % 2 == 0
    then err (unknown_even_type t)
    else ok (unknown t cursor)

pub decode : (b : Bitcoin) → Bytes → Outcome BoltError (Message b)
decode b input = do (t, cursor) ← u16.read input; decode_body b t cursor

unfoldable pub raw_message : ℕ → Bytes → Bytes
raw_message t payload = u16.write t ++ payload
