-- ===== src/Bolt/Accepts.antt =====
-- The shape of the theorems about the message codecs.
use ln_gossip_sim.Base.{◌≡◌, ◌++◌, Bytes}

-- The message is valid, and the payload is its encoding with any bytes behind it: the decoders of
-- messages without a TLV stream ignore what follows the last field.
abbrev pub Accepts : {M : Type 0} → (M → Bytes) → (M → Type 0) → Bytes → M → Type 0
Accepts encode Valid payload m = Valid m × (rest : Bytes) × (payload ≡ encode m ++ rest)
