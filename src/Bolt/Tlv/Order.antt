-- ===== src/Bolt/Tlv/Order.antt =====
-- What a well-formed TLV stream is: an independent description of the streams that are accepted.
use ln_gossip_sim.Base.{
  ℕ, ◌%◌, ◌^◌, ◌<◌, ◌≡◌, ◌⊎◌, Option, none, some, List, [], ◌∷◌, length, AllBytes,
}
use ln_gossip_sim.Bolt.Tlv.{TlvRecord}

abbrev pub OneOf : ℕ → List ℕ → Type 0
OneOf a [] = ⊥
OneOf a (x ∷ xs) = (x ≡ a) ⊎ OneOf a xs

-- The type is above that of the record before.
abbrev pub Follows : Option ℕ → ℕ → Type 0
Follows none t = Unit
Follows (some prev) t = prev < t

-- A record whose parts fit the wire, of an odd type or of a known even one.
abbrev pub IsRecord : List ℕ → TlvRecord → Type 0
IsRecord known r =
    (r.tlv_type < 2 ^ 64)
    × (length r.value < 2 ^ 64)
    × AllBytes r.value
    × (r.tlv_type % 2 ≡ 0 → OneOf r.tlv_type known)

-- Such records, with strictly increasing types.
abbrev pub IsStream : Option ℕ → List ℕ → List TlvRecord → Type 0
IsStream last known [] = Unit
IsStream last known (r ∷ rs) =
    Follows last r.tlv_type × IsRecord known r × IsStream (some r.tlv_type) known rs
