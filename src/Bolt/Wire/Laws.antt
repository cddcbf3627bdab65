-- ===== src/Bolt/Wire/Laws.antt =====
-- What a wire format promises.
use ln_gossip_sim.Base.{◌≡◌, ◌++◌, Bytes, AllBytes, ok, Ensures}
use ln_gossip_sim.Bolt.Wire.{WireFormat}

-- What `read` returned is a valid value, and the bytes were its encoding and the rest.
abbrev pub Reads : {A : Type 0} → WireFormat A → (A → Type 0) → Bytes → A × Bytes → Type 0
Reads format Valid bytes (a, rest) = Valid a × AllBytes rest × (bytes ≡ format.write a ++ rest)

-- `Valid` are the values that the format can carry.
pub record IsLawful {A : Type 0} (format : WireFormat A) (Valid : A → Type 0) : Type 0 where
  -- A written value is read back, and what follows it is left.
  pub read-write :
      (a : A) (rest : Bytes) → Valid a → format.read (format.write a ++ rest) ≡ ok (a, rest)
  -- Reading any bytes ends in an error, or with a value whose encoding it consumed.
  pub read-Ensures :
      (bytes : Bytes) → AllBytes bytes → Ensures (Reads format Valid bytes) (format.read bytes)
  -- What is written are bytes.
  pub write-AllBytes : (a : A) → Valid a → AllBytes (format.write a)
