-- ===== src/Examples/Connections.antt =====
-- A stream of the examples, and the theorems on connections at small inputs.
use mathlib.Core.Path.{subst}
use ln_gossip_sim.Base.{
  AllBytes, All-drop, All-take, ◌<◌, ℕ, ◌≤◌, ◌≡◌, refl, arith, true, false, Option, none, some,
  List, [], ◌∷◌, ◌++◌, All, length, take, drop, replicate, length-append, take-append, drop-append,
  take-append-drop, length-take, length-drop, if◌then◌else◌, ltb, ltb→le, le→ltb, Bool-cases, inl,
  inr, Bytes, ok,
}
use ln_gossip_sim.GossipSim.Tcp.{Tcp, TcpLaws}
use ln_gossip_sim.GossipSim.Conn.{NoiseWriter, NoiseReader}
use ln_gossip_sim.GossipSim.Conn.Delivery.{send_each, recv_each, recv_each-send_each}
use ln_gossip_sim.Noise.Rotation.{rotated, SendsAfter, ReceivesAfter}
use ln_gossip_sim.Examples.Instances.{crypto, crypto_laws}

pub take_exact : ℕ → Bytes → Option Bytes
take_exact n bytes = if ltb (length bytes) n then none else some (take n bytes)

-- The halves are the bytes written and the bytes to be read.
abbrev pub pipe : Tcp
pipe = record {
  OwnedReadHalf = Bytes;
  OwnedWriteHalf = Bytes;
  write_all = λ bytes w. (true, w ++ bytes);
  read_exact = λ n r. (take_exact n r, drop n r);
  dropped_read = λ n m r. drop m r;
}

take_exact-append :
    (n : ℕ) (bytes rest : Bytes) → length bytes ≡ n → take_exact n (bytes ++ rest) ≡ some bytes
unfolding take_exact
take_exact-append n bytes rest h =
    let enough : ltb (length (bytes ++ rest)) n ≡ false =
      le→ltb _ _ (omega (arith, length-append bytes rest)) in
    let front : take n (bytes ++ rest) ≡ bytes = rw (← h) (take-append bytes rest) in
    rw (enough, front)

pub take_exact-some :
    (n : ℕ) (all bytes : Bytes)
    → take_exact n all ≡ some bytes
    → (length bytes ≡ n) × (all ≡ bytes ++ drop n all)
unfolding take_exact
take_exact-some n all bytes h = elim (Bool-cases (ltb (length all) n)) [
  | inl short ↦ ground arith
  | inr long ↦
      let size = length-take n all (ltb→le (length all) n long) in
      let parts = take-append-drop n all in
      let same : take n all ≡ bytes = ground arith in (rw same at size, rw same at parts)
]

pub pipe_laws : TcpLaws pipe
pipe_laws = record {
  outgoing = λ w. w;
  incoming = λ r. r;
  write_all-true = λ bytes w e. refl;
  read_exact-incoming = λ n r bytes rest e h.
      (rw e (take_exact-append n bytes rest h), rw (e, ← h) (drop-append bytes rest));
  read_exact-some = λ n r bytes e. take_exact-some n r bytes e;
  dropped_read-incoming = λ n m r bytes rest e h lt. rw (e, ← h) (drop-append bytes rest);
  dropped_read-le = λ n m r. omega (arith, length-drop m r);
}

pub pipe-incoming : (r : Bytes) → pipe_laws.incoming r ≡ r
unfolding pipe_laws
pipe-incoming r = refl

abbrev pub key : Bytes
key = replicate 32 1

abbrev pub writer : NoiseWriter pipe
writer = record { stream = []; cipher = record { key = key; nonce = 0; ck = key } }

abbrev pub messages : List Bytes
messages = (0 ∷ 18 ∷ []) ∷ (1 ∷ 2 ∷ 3 ∷ []) ∷ []

-- All that was written has arrived.
abbrev pub reader : NoiseReader pipe
reader = record {
  stream = (send_each pipe crypto messages writer).1.stream;
  cipher = record { key = key; nonce = 0; ck = key };
}

pub writer-SendsAfter : SendsAfter crypto key key 0 writer.cipher
unfolding rotated
writer-SendsAfter = record {
  epoch = 0;
  counted = refl;
  bounded = omega arith;
  ck_is = refl;
  key_is = refl;
}

pub reader-ReceivesAfter : ReceivesAfter crypto key key 0 reader.cipher
unfolding rotated
reader-ReceivesAfter = record {
  epoch = 0;
  counted = refl;
  bounded = omega arith;
  ck_is = refl;
  key_is = refl;
}

messages-Fit : All (λ msg. length msg ≤ 65535) messages
messages-Fit = omega arith

pub pipe_stays_open : (bytes s : Bytes) → (pipe.write_all bytes s).0 ≡ true
pipe_stays_open bytes s = refl

recv_each-send_each_example :
    ((send_each pipe crypto messages writer).0 ≡ ok tt)
    × ((recv_each pipe crypto 2 reader).0 ≡ ok messages)
unfolding pipe_laws
recv_each-send_each_example =
    recv_each-send_each pipe crypto pipe_laws key key crypto_laws pipe_stays_open 0 writer reader
      messages writer-SendsAfter reader-ReceivesAfter messages-Fit refl

-- A stream of which the bytes to be read are known to be bytes.
abbrev pub byte_pipe : Tcp
byte_pipe = record {
  OwnedReadHalf = (bytes : Bytes) × AllBytes bytes;
  OwnedWriteHalf = Bytes;
  write_all = λ bytes w. (true, w ++ bytes);
  read_exact = λ n r. (take_exact n r.0, (drop n r.0, All-drop (λ b. b < 256) n r.0 r.1));
  dropped_read = λ n m r. (drop m r.0, All-drop (λ b. b < 256) m r.0 r.1);
}

pub byte_pipe_laws : TcpLaws byte_pipe
byte_pipe_laws = record {
  outgoing = λ w. w;
  incoming = λ r. r.0;
  write_all-true = λ bytes w e. refl;
  read_exact-incoming = λ n r bytes rest e h.
      (rw e (take_exact-append n bytes rest h), rw (e, ← h) (drop-append bytes rest));
  read_exact-some = λ n r bytes e. take_exact-some n r.0 bytes e;
  dropped_read-incoming = λ n m r bytes rest e h lt. rw (e, ← h) (drop-append bytes rest);
  dropped_read-le = λ n m r. omega (arith, length-drop m r.0);
}

take_exact-AllBytes :
    (n : ℕ) (all bytes : Bytes) → AllBytes all → take_exact n all ≡ some bytes → AllBytes bytes
unfolding take_exact
take_exact-AllBytes n all bytes h e = elim (Bool-cases (ltb (length all) n)) [
  | inl short ↦ ground arith
  | inr long ↦
      let same : take n all ≡ bytes = ground arith in
      subst AllBytes same (All-take (λ b. b < 256) n all h)
]

pub byte_pipe_arrives :
    (n : ℕ) (r : (bytes : Bytes) × AllBytes bytes) (bytes : Bytes)
    → (byte_pipe.read_exact n r).0 ≡ some bytes
    → AllBytes bytes
byte_pipe_arrives n r bytes e = take_exact-AllBytes n r.0 bytes r.1 e

-- A ping of six bytes in one packet, and the start of another packet.
abbrev pub arrived : Bytes
arrived = (0 ∷ 6 ∷ replicate 16 0) ++ ((0 ∷ 18 ∷ 0 ∷ 4 ∷ 0 ∷ 0 ∷ replicate 16 0) ++ (0 ∷ 7 ∷ []))

pub arrived-AllBytes : AllBytes arrived
arrived-AllBytes = omega arith

abbrev pub byte_reader : NoiseReader byte_pipe
byte_reader = record {
  stream = (arrived, arrived-AllBytes);
  cipher = record { key = key; nonce = 0; ck = key };
}

abbrev pub byte_writer : NoiseWriter byte_pipe
byte_writer = record { stream = []; cipher = record { key = key; nonce = 0; ck = key } }
