-- ===== src/Bolt/Message/Echo.antt =====
-- The answer to the Init message of a peer, bolt/src/init.rs: it is valid, and no longer than what it answers.
use ln_gossip_sim.Base.{◌+◌, ◌≤◌, ◌≡◌, ap, arith, ◌++◌, length, length-append, Bytes, ok, [], ◌>>=◌}
use ln_gossip_sim.Bitcoin.{Bitcoin}
use ln_gossip_sim.Bolt.Wire.{u16, vec}
use ln_gossip_sim.Bolt.Wire.Lengths.{length-uint, length-vec}
use ln_gossip_sim.Bolt.Tlv
use ln_gossip_sim.Bolt.Tlv.Pair.{encode-empty}
use ln_gossip_sim.Bolt.Init.{Init, echo}
use ln_gossip_sim.Bolt.Init.RoundTrip.{IsValid, stream_of, encode_lem}
use ln_gossip_sim.Bolt.Message.{init, encode, encode_body, msg_type}

pub echo-IsValid : (m : Init) → IsValid m → IsValid (echo m)
unfolding echo
echo-IsValid m v = record {
  globalfeatures = v.globalfeatures;
  features = v.features;
  networks = tt;
  remote_addr = tt;
}

-- The type, the features and the records.
pub init_bytes : Init → Bytes → Bytes
init_bytes m records =
    u16.write 16 ++ (vec.write m.globalfeatures ++ (vec.write m.features ++ records))

encode-init :
    {E : Type 0} (b : Bitcoin) (m : Init)
    → encode {E = E} b (init m) ≡ ok (init_bytes m (Tlv.encode (stream_of m)))
unfolding encode encode_body msg_type init_bytes
encode-init b m = ap (λ r. r >>= λ body. ok (u16.write 16 ++ body)) (encode_lem m)

length-init_bytes :
    (m : Init) (records : Bytes)
    → length (init_bytes m records) ≡ length (init_bytes m []) + length records
unfolding init_bytes
length-init_bytes m records = omega (
  arith,
  length-append (u16.write 16) (vec.write m.globalfeatures ++ (vec.write m.features ++ records)),
  length-append (vec.write m.globalfeatures) (vec.write m.features ++ records),
  length-append (vec.write m.features) records,
  length-append (u16.write 16) (vec.write m.globalfeatures ++ (vec.write m.features ++ [])),
  length-append (vec.write m.globalfeatures) (vec.write m.features ++ []),
  length-append (vec.write m.features) [],
)

-- The size of an Init message without records.
pub length-init_bytes_nil :
    (m : Init) → length (init_bytes m []) ≡ 6 + length m.globalfeatures + length m.features
unfolding init_bytes
length-init_bytes_nil m = omega (
  arith,
  length-append (u16.write 16) (vec.write m.globalfeatures ++ (vec.write m.features ++ [])),
  length-append (vec.write m.globalfeatures) (vec.write m.features ++ []),
  length-append (vec.write m.features) [],
  length-uint 2 16,
  length-vec m.globalfeatures,
  length-vec m.features,
)

pub encode-echo :
    {E : Type 0} (b : Bitcoin) (m : Init) → encode {E = E} b (init (echo m)) ≡ ok (init_bytes m [])
unfolding echo init_bytes
encode-echo b m = rw (← encode-empty) (encode-init b (echo m))

pub length-echo-le :
    {E : Type 0} (b : Bitcoin) (m : Init) (raw reply : Bytes)
    → encode {E = E} b (init m) ≡ ok raw
    → encode {E = E} b (init (echo m)) ≡ ok reply
    → length reply ≤ length raw
length-echo-le {E} b m raw reply e f =
    let whole : raw ≡ init_bytes m (Tlv.encode (stream_of m)) = cc (encode-init {E = E} b m) in
    let front : reply ≡ init_bytes m [] = cc (encode-echo {E = E} b m) in
    omega (arith, ap length whole, ap length front, length-init_bytes m (Tlv.encode (stream_of m)))
