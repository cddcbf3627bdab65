-- ===== src/Bolt/ScidText.antt =====
-- bolt/src/channel_announcement.rs and bolt/src/channel_update.rs: a short channel ID as
-- `block x tx x output`. The two methods have the same body.
use ln_gossip_sim.Base.{ℕ, ◌/◌, ◌%◌, ◌^◌, ◌∷◌, ◌++◌}
use ln_gossip_sim.Base.Text.{Text}
use ln_gossip_sim.Base.Decimal.{to_text}

-- The block height, the index of the transaction and the index of the output, of 24, 24 and 16 bits.
abbrev pub block : ℕ → ℕ
block scid = scid / 2 ^ 40

abbrev pub tx_index : ℕ → ℕ
tx_index scid = scid / 2 ^ 16 % 2 ^ 24

abbrev pub output : ℕ → ℕ
output scid = scid % 2 ^ 16

unfoldable pub scid_text : ℕ → Text
scid_text scid =
    to_text (block scid) ++ b'x' ∷ (to_text (tx_index scid) ++ b'x' ∷ to_text (output scid))
