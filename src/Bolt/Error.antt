-- ===== src/Bolt/Error.antt =====
-- bolt/src/error.rs: the `error` message. The source's field `data` is `contents`; text is its
-- bytes.
use ln_gossip_sim.Base.{ℕ, ◌++◌, leb, if◌then◌else◌, length, Bytes, Outcome, ok, panic, ◌>>=◌}
use ln_gossip_sim.Bolt.Types.{BoltError, max_message_size, all_channel_ids}
use ln_gossip_sim.Bolt.Wire.{channel_id, vec}
pub mod RoundTrip

pub record Error : Type 0 where
  pub channel_id : Bytes
  pub contents : Bytes

-- Panics if the text is too long.
unfoldable pub for_channel {ℓ} : {E : Type ℓ} → Bytes → Bytes → Outcome E Error
for_channel id msg =
    if leb (length msg) max_message_size
    then ok (record { channel_id = id; contents = msg })
    else panic

unfoldable pub all_channels {ℓ} : {E : Type ℓ} → Bytes → Outcome E Error
all_channels msg =
    if leb (length msg) max_message_size
    then ok (record { channel_id = all_channel_ids; contents = msg })
    else panic

unfoldable pub encode : Error → Bytes
encode m = channel_id.write m.channel_id ++ vec.write m.contents

unfoldable pub decode : Bytes → Outcome BoltError Error
decode payload = do
  (id, cursor) ← channel_id.read payload
  (contents, cursor) ← vec.read cursor
  ok (record { channel_id = id; contents = contents })
