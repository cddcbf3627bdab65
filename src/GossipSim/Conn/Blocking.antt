-- ===== src/GossipSim/Conn/Blocking.antt =====
-- The blocking connection of noise/src/connection.rs against the two halves of ln-gossip-sim/src/conn.rs.
use ln_gossip_sim.Base.{
  ℕ, ◌+◌, ◌≤◌, ◌≡◌, refl, ap, arith, true, Bool-cases, inl, inr, length, le→ltb, Bytes, Outcome, ok,
  err, panic, stuck,
}
use mathlib.Core.Path.{subst}
use ln_gossip_sim.Base.State.{Method, continue}
use ln_gossip_sim.Base.Options.{Option-cases}
use ln_gossip_sim.Crypto.{Crypto}
use ln_gossip_sim.Noise.NoiseError.{NoiseError}
use ln_gossip_sim.Noise.Cipher.{encrypt_with_ad, decrypt_with_ad}
use ln_gossip_sim.Noise.SendCipher
use ln_gossip_sim.Noise.SendCipher.{SendCipher}
use ln_gossip_sim.Noise.RecvCipher
use ln_gossip_sim.Noise.RecvCipher.{RecvCipher}
use ln_gossip_sim.Noise.NoiseCipher
use ln_gossip_sim.Noise.NoiseCipher.{NoiseCipher, split}
use ln_gossip_sim.Noise.NoiseCipher.Split.{
  encrypt-split, decrypt_length-split, decrypt_message-split,
}
use ln_gossip_sim.Noise.Connection
use ln_gossip_sim.Noise.Connection.{
  ConnectionError, io, noise, BlockingTcp, NoiseConnection, with_cipher, send_message, recv_message,
}
use ln_gossip_sim.GossipSim.Tcp.{Tcp}
use ln_gossip_sim.GossipSim.Conn
use ln_gossip_sim.GossipSim.Conn.{NoiseWriter, NoiseReader, with_sender, with_receiver, send, recv}

-- A blocking stream made of the two halves of a stream.
abbrev pub whole_stream : Tcp → BlockingTcp
whole_stream t = record {
  TcpStream = t.OwnedReadHalf × t.OwnedWriteHalf;
  set_options = λ s. true;
  write_all = λ bytes (r, w). let (done, w') = t.write_all bytes w in (done, (r, w'));
  read_exact = λ size (r, w). let (found, r') = t.read_exact size r in (found, (r', w));
}

-- The same error in the enumeration of the blocking connection.
abbrev pub as_connection_error : NoiseError → ConnectionError
as_connection_error NoiseError.io = io
as_connection_error e = noise e

-- A method of a cipher fails with no I/O error.
abbrev NoIo : {A : Type 0} → Outcome NoiseError A → Type 0
NoIo (err NoiseError.io) = ⊥
NoIo _ = Unit

module _ (t : Tcp) where
  abbrev pub Whole : Type 0
  Whole = NoiseConnection (whole_stream t)

  abbrev pub writer_of : Whole → NoiseWriter t
  writer_of s = record { stream = s.stream.1; cipher = (split s.cipher).0 }

  abbrev pub reader_of : Whole → NoiseReader t
  reader_of s = record { stream = s.stream.0; cipher = (split s.cipher).1 }

  -- A run of the whole connection and a run of one half: the outcomes are the same, the half ends as that
  -- part of the whole, and the other part is `kept`.
  pub data Same {P Q A : Type 0} (part : Whole → P) (other : Whole → Q) (kept : Q)
      : Outcome ConnectionError A × Whole → Outcome NoiseError A × P → Type 0 where
    both_ok : {a : A} {s : Whole} → other s ≡ kept → Same part other kept (ok a, s) (ok a, part s)
    both_err :
        {e : NoiseError} {s : Whole}
        → other s ≡ kept
        → Same part other kept (err (as_connection_error e), s) (err e, part s)
    both_panic : {s : Whole} → other s ≡ kept → Same part other kept (panic, s) (panic, part s)
    both_stuck : {s : Whole} → other s ≡ kept → Same part other kept (stuck, s) (stuck, part s)

  Same-continue :
      {P Q A B : Type 0} {part : Whole → P} {other : Whole → Q} {kept : Q}
      {m : Outcome ConnectionError A × Whole} {n : Outcome NoiseError A × P}
      {f : A → Method Whole ConnectionError B} (g : A → Method P NoiseError B)
      → Same part other kept m n
      → ((a : A) (s : Whole) → other s ≡ kept → Same part other kept (f a s) (g a (part s)))
      → Same part other kept (continue m f) (continue n g)
  Same-continue g (both_ok {a} {s} e) k = k a s e
  Same-continue g (both_err e) k = both_err e
  Same-continue g (both_panic e) k = both_panic e
  Same-continue g (both_stuck e) k = both_stuck e

  module _ (c : Crypto) where
    write_all-Same :
        (bytes : Bytes) (s : Whole)
        → Same writer_of reader_of
            (reader_of s)
            (Connection.write_all (whole_stream t) c bytes s)
            (Conn.write_all t bytes (writer_of s))
    unfolding Connection.write_all Conn.write_all
    write_all-Same bytes s = elim (Bool-cases (t.write_all bytes s.stream.1).0) [
      | inl e ↦ rw e (both_ok refl)
      | inr e ↦ rw e (both_err {e = NoiseError.io} refl)
    ]

    read_exact-Same :
        (size : ℕ) (s : Whole)
        → Same reader_of writer_of
            (writer_of s)
            (Connection.read_exact (whole_stream t) c size s)
            (Conn.read_exact t size (reader_of s))
    unfolding Connection.read_exact Conn.read_exact
    read_exact-Same size s = elim (Option-cases (t.read_exact size s.stream.0).0) [
      | inl e ↦ rw e (both_err {e = NoiseError.io} refl)
      | inr (bytes, e) ↦ rw e (both_ok refl)
    ]

    -- A method of the whole cipher that is the one of a half.
    receiver-Same :
        {A : Type 0} (s : Whole) (m : Outcome NoiseError A × NoiseCipher)
        → NoIo m.0
        → (split m.1).0 ≡ (split s.cipher).0
        → Same reader_of writer_of
            (writer_of s)
            (with_cipher (whole_stream t) c s m)
            (with_receiver t (reader_of s) (m.0, (split m.1).1))
    receiver-Same s (ok a, q) p e = both_ok (ap (λ x. record (writer_of s) { cipher = x }) e)
    receiver-Same s (err NoiseError.io, q) p e = absurd p
    receiver-Same s (err x, q) p e = both_err (ap (λ x. record (writer_of s) { cipher = x }) e)
    receiver-Same s (panic, q) p e = both_panic (ap (λ x. record (writer_of s) { cipher = x }) e)
    receiver-Same s (stuck, q) p e = both_stuck (ap (λ x. record (writer_of s) { cipher = x }) e)

    sender-Same :
        {A : Type 0} (s : Whole) (m : Outcome NoiseError A × NoiseCipher)
        → NoIo m.0
        → (split m.1).1 ≡ (split s.cipher).1
        → Same writer_of reader_of
            (reader_of s)
            (with_cipher (whole_stream t) c s m)
            (with_sender t (writer_of s) (m.0, (split m.1).0))
    sender-Same s (ok a, q) p e = both_ok (ap (λ x. record (reader_of s) { cipher = x }) e)
    sender-Same s (err NoiseError.io, q) p e = absurd p
    sender-Same s (err x, q) p e = both_err (ap (λ x. record (reader_of s) { cipher = x }) e)
    sender-Same s (panic, q) p e = both_panic (ap (λ x. record (reader_of s) { cipher = x }) e)
    sender-Same s (stuck, q) p e = both_stuck (ap (λ x. record (reader_of s) { cipher = x }) e)

    encrypt-NoIo :
        (msg : Bytes) (q : NoiseCipher) → NoIo (NoiseCipher.encrypt c {E = NoiseError} msg q).0
    unfolding NoiseCipher.encrypt NoiseCipher.encrypt_length encrypt_with_ad
    encrypt-NoIo msg q = ground arith

    decrypt_length-NoIo : (x : Bytes) (q : NoiseCipher) → NoIo (NoiseCipher.decrypt_length c x q).0
    unfolding NoiseCipher.decrypt_length decrypt_with_ad
    decrypt_length-NoIo x q = ground arith

    decrypt_message-NoIo :
        (x : Bytes) (q : NoiseCipher) → NoIo (NoiseCipher.decrypt_message c x q).0
    unfolding NoiseCipher.decrypt_message decrypt_with_ad
    decrypt_message-NoIo x q = ground arith

    decrypt_length-Same :
        (x : Bytes) (s : Whole)
        → Same reader_of writer_of
            (writer_of s)
            (with_cipher (whole_stream t) c s (NoiseCipher.decrypt_length c x s.cipher))
            (with_receiver t (reader_of s) (RecvCipher.decrypt_length c x (reader_of s).cipher))
    decrypt_length-Same x s =
        let h = decrypt_length-split c s.cipher x in
        let m = NoiseCipher.decrypt_length c x s.cipher in
        let n = RecvCipher.decrypt_length c x (reader_of s).cipher in
        let same : (m.0, (split m.1).1) ≡ n = ap (λ (o, _, q). (o, q)) h in
        subst
          (λ r.
            Same reader_of writer_of (writer_of s) (with_cipher (whole_stream t) c s m)
              (with_receiver t (reader_of s) r))
          same (receiver-Same s m (decrypt_length-NoIo x s.cipher) (ap (λ (_, q, _). q) h))

    decrypt_message-Same :
        (x : Bytes) (s : Whole)
        → Same reader_of writer_of
            (writer_of s)
            (with_cipher (whole_stream t) c s (NoiseCipher.decrypt_message c x s.cipher))
            (with_receiver t (reader_of s) (RecvCipher.decrypt_message c x (reader_of s).cipher))
    decrypt_message-Same x s =
        let h = decrypt_message-split c s.cipher x in
        let m = NoiseCipher.decrypt_message c x s.cipher in
        let n = RecvCipher.decrypt_message c x (reader_of s).cipher in
        let same : (m.0, (split m.1).1) ≡ n = ap (λ (o, _, q). (o, q)) h in
        subst
          (λ r.
            Same reader_of writer_of (writer_of s) (with_cipher (whole_stream t) c s m)
              (with_receiver t (reader_of s) r))
          same (receiver-Same s m (decrypt_message-NoIo x s.cipher) (ap (λ (_, q, _). q) h))

    encrypt-Same :
        (msg : Bytes) (s : Whole)
        → Same writer_of reader_of
            (reader_of s)
            (with_cipher (whole_stream t) c s (NoiseCipher.encrypt c msg s.cipher))
            (with_sender t (writer_of s) (SendCipher.encrypt c msg (writer_of s).cipher))
    encrypt-Same msg s =
        let h = encrypt-split c s.cipher {E = NoiseError} msg in
        let m = NoiseCipher.encrypt c {E = NoiseError} msg s.cipher in
        let n = SendCipher.encrypt c {E = NoiseError} msg (writer_of s).cipher in
        let same : (m.0, (split m.1).0) ≡ n = ap (λ (o, q, _). (o, q)) h in
        subst
          (λ r.
            Same writer_of reader_of (reader_of s) (with_cipher (whole_stream t) c s m)
              (with_sender t (writer_of s) r))
          same (sender-Same s m (encrypt-NoIo msg s.cipher) (ap (λ (_, _, q). q) h))

    at_kept :
        {P Q A : Type 0} {part : Whole → P} {other : Whole → Q} {q kept : Q}
        {m : Outcome ConnectionError A × Whole} {n : Outcome NoiseError A × P}
        → q ≡ kept
        → Same part other q m n
        → Same part other kept m n
    at_kept {part = part} {other = other} {m = m} {n = n} e p =
        subst (λ k. Same part other k m n) e p

    send_message-Same :
        (msg : Bytes) (s : Whole)
        → length msg ≤ 65535
        → Same writer_of reader_of
            (reader_of s)
            (send_message (whole_stream t) c msg s)
            (send t c msg (writer_of s))
    unfolding send_message send
    send_message-Same msg s le = rw (le→ltb 65535 (length msg) le) (
        Same-continue (Conn.write_all t) (encrypt-Same msg s)
          λ bytes s1 e. at_kept e (write_all-Same bytes s1))

    recv_message-Same :
        (s : Whole)
        → Same reader_of writer_of
            (writer_of s)
            (recv_message (whole_stream t) c s)
            (recv t c (reader_of s))
    unfolding recv_message recv
    recv_message-Same s = Same-continue _ (read_exact-Same 18 s) λ header s1 e1.
        Same-continue _ (at_kept e1 (decrypt_length-Same header s1)) λ len s2 e2.
          Same-continue _ (at_kept e2 (read_exact-Same (len + 16) s2))
            λ body s3 e3. at_kept e3 (decrypt_message-Same body s3)

    -- Over a stream that is made of two halves, with the whole cipher and its two halves in the same state:
    -- sending a message of at most 65535 bytes, and receiving one, do on the blocking connection what they
    -- do on the half in question, with the same outcome and the same error; the other half is left as it is.
    pub blocking-Same :
        (msg : Bytes) (s : Whole)
        → length msg ≤ 65535
        → Same writer_of reader_of
            (reader_of s)
            (send_message (whole_stream t) c msg s)
            (send t c msg (writer_of s))
          × Same reader_of writer_of
              (writer_of s)
              (recv_message (whole_stream t) c s)
              (recv t c (reader_of s))
    blocking-Same msg s le = (send_message-Same msg s le, recv_message-Same s)
