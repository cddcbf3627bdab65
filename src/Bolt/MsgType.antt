-- ===== src/Bolt/MsgType.antt =====
-- The message type numbers of bolt/src/lib.rs, `msg_type`.
use ln_gossip_sim.Base.{ℕ}

abbrev pub warning : ℕ
warning = 1

abbrev pub init : ℕ
init = 16

abbrev pub error : ℕ
error = 17

abbrev pub ping : ℕ
ping = 18

abbrev pub pong : ℕ
pong = 19

abbrev pub open_channel : ℕ
open_channel = 32

abbrev pub funding_created : ℕ
funding_created = 34

abbrev pub channel_announcement : ℕ
channel_announcement = 256

abbrev pub node_announcement : ℕ
node_announcement = 257

abbrev pub channel_update : ℕ
channel_update = 258

abbrev pub query_channel_range : ℕ
query_channel_range = 263

abbrev pub reply_channel_range : ℕ
reply_channel_range = 264
