-- ===== src/GossipSim/Daemon/Commands.antt =====
-- ln-gossip-sim/src/bin/simd.rs: the commands on peers and on bitcoind. An early `return` of a text is an error of
-- the method and the text at the end its value; the client gets either.
use ln_gossip_sim.Base.{
  ℕ, Option, none, some, List, [], ◌∷◌, ◌++◌, map, length, Outcome, ok, err, panic, stuck, map_err,
  Bytes,
}
use ln_gossip_sim.Base.State.{◌>>=◌, ◌>>◌, return, throw, call, this, modify, ok_or}
use ln_gossip_sim.Base.Options
use ln_gossip_sim.Base.Text.{Text}
use ln_gossip_sim.Base.Decimal.{parse_u64}
use ln_gossip_sim.Bitcoin.{Bitcoin}
use ln_gossip_sim.Crypto.{Crypto}
use ln_gossip_sim.Bolt.Types.{BoltError, unknown_even_type}
use ln_gossip_sim.Bolt.Message
use ln_gossip_sim.Bolt.Message.{Message, unknown}
use ln_gossip_sim.Noise.Cipher.{first_two}
use ln_gossip_sim.GossipSim.Tcp.{Tcp}
use ln_gossip_sim.GossipSim.Host.{Host}
use ln_gossip_sim.GossipSim.Conn.{NoiseWriter, NoiseReader}
use ln_gossip_sim.GossipSim.Conn.Connect.{connect}
use ln_gossip_sim.GossipSim.Keys.{node_secret}
use ln_gossip_sim.GossipSim.Bitcoind
use ln_gossip_sim.GossipSim.Daemon.{
  Answer, usage, invalid_pubkey, invalid_address, invalid_message_hex, connection_failed, connected,
  disconnected, not_connected, task_failed, unknown_message_type, decode_failed, sent_message_type,
  peer_list, info, mined, PeerTable, Command, on_host, send_to,
}
use ln_gossip_sim.GossipSim.Daemon.Table.{get, spawn, insert_peer, disconnect}

-- `if let Some(peer) = peers.remove(&pubkey)`
abbrev pub removed :
    {b : Bitcoin} → b.PublicKey → Option (PeerTable b) → Outcome (Answer b) (PeerTable b)
removed k none = err (not_connected k)
removed k (some s) = ok s

-- The match on the decoded message: only what has a codec is encoded again.
unfoldable pub to_wire : (b : Bitcoin) → Outcome BoltError (Message b) → Outcome (Answer b) Bytes
to_wire b (ok (unknown msg_type payload)) = err (unknown_message_type msg_type)
to_wire b (ok m) = Message.encode b m
to_wire b (err (unknown_even_type msg_type)) = err (unknown_message_type msg_type)
to_wire b (err e) = err (decode_failed e)
to_wire b panic = panic
to_wire b stuck = stuck

-- `spawn_blocking(...).await`: a panic of the blocking task is an error of the join.
abbrev pub joined :
    {E A : Type 0} → {b : Bitcoin} → (E → Answer b) → Outcome E A → Outcome (Answer b) A
joined failed (ok a) = ok a
joined failed (err e) = err (failed e)
joined failed panic = err task_failed
joined failed stuck = stuck

module _ (b : Bitcoin) (t : Tcp) (h : Host b t) (c : Crypto)
    (ecdh : b.SecretKey → b.PublicKey → Bytes) where
  -- `hex::decode(part).ok().and_then(|b| PublicKey::from_slice(&b).ok())`
  unfoldable pub parse_pubkey : Text → Option b.PublicKey
  parse_pubkey part = Options.◌>>=◌ (h.hex_decode part) b.public_key_from_slice

  -- The writer of a connected peer, from the locked table.
  unfoldable pub writer_of : b.PublicKey → Command b t h ℕ
  writer_of k = do
    d ← this
    peer ← call (ok_or (get b k d.table.peers) (not_connected k))
    return peer.writer

  -- The reader task, its writer and its reader, at the ends of their stores.
  unfoldable pub spawn_reader : b.PublicKey → NoiseWriter t → NoiseReader t → Command b t h ℕ
  spawn_reader k writer reader d =
      let (n, table) = spawn b k d.table in
      (
        ok n,
        record d {
          table = table;
          writers = d.writers ++ writer ∷ [];
          readers = d.readers ++ reader ∷ [];
        },
      )

  -- The task is spawned, then the peer is put into the table.
  unfoldable pub register : b.PublicKey → NoiseWriter t → NoiseReader t → Command b t h (Answer b)
  unfolding spawn_reader
  register k writer reader = do
    n ← spawn_reader k writer reader
    modify (λ d. record d { table = insert_peer b k n d.table })
    return (connected k)

  unfoldable pub cmd_connect : List Text → Command b t h (Answer b)
  unfolding parse_pubkey register
  cmd_connect (name ∷ key ∷ place ∷ []) = do
    pubkey ← call (ok_or (parse_pubkey key) invalid_pubkey)
    addr ← call (ok_or (h.parse_addr place) invalid_address)
    secret ← call (node_secret b)
    ephemeral ← on_host b t h h.random_key
    stream ← on_host b t h (h.dial addr)
    (writer, reader, _) ←
        call (map_err connection_failed (connect t c b ecdh stream pubkey secret ephemeral))
    register pubkey writer reader
  cmd_connect _ = throw usage

  -- The peer is taken out of the table, and its task is aborted.
  unfoldable pub drop_peer : b.PublicKey → Command b t h (Answer b)
  drop_peer k = do
    d ← this
    table ← call (removed k (disconnect b k d.table))
    modify (λ d. record d { table = table })
    return (disconnected k)

  unfoldable pub cmd_disconnect : List Text → Command b t h (Answer b)
  unfolding parse_pubkey drop_peer
  cmd_disconnect (name ∷ key ∷ []) = do
    pubkey ← call (ok_or (parse_pubkey key) invalid_pubkey)
    drop_peer pubkey
  cmd_disconnect _ = throw usage

  unfoldable pub cmd_send_message : List Text → Command b t h (Answer b)
  unfolding parse_pubkey to_wire writer_of
  cmd_send_message (name ∷ key ∷ message ∷ []) = do
    pubkey ← call (ok_or (parse_pubkey key) invalid_pubkey)
    bytes ← call (ok_or (h.hex_decode message) invalid_message_hex)
    wire ← call (to_wire b (Message.decode b bytes))
    writer ← writer_of pubkey
    send_to b t h c writer wire
    msg_type ← call (first_two wire)
    return (sent_message_type msg_type pubkey)
  cmd_send_message _ = throw usage

  -- The order of a `HashMap` is not fixed; here it is that of the table.
  unfoldable pub cmd_peers : Command b t h (Answer b)
  cmd_peers = do d ← this; return (peer_list (map (λ (k, peer). k) d.table.peers))

  unfoldable pub cmd_info : Command b t h (Answer b)
  cmd_info = do
    d ← this
    blocks ← on_host b t h (Bitcoind.block_count b t h d.bitcoind)
    hash ← on_host b t h (Bitcoind.best_block_hash b t h d.bitcoind)
    balance ← on_host b t h (Bitcoind.balance b t h d.bitcoind)
    d ← this
    return (info d.node_id (length d.table.peers) blocks hash balance)

  -- A blocking call of the client: its error, or a panic in it, which the join turns into an error.
  unfoldable pub blocking :
      {E A : Type 0}
      → (E → Answer b)
      → (h.Client → h.State → Outcome E A × h.State)
      → Command b t h A
  blocking failed request d =
      let (found, s) = request d.bitcoind d.host in (joined failed found, record d { host = s })

  unfoldable pub cmd_mine : List Text → Command b t h (Answer b)
  unfolding blocking
  cmd_mine (name ∷ count ∷ rest) = do
    blocks ← call (ok_or (parse_u64 count) usage)
    text ←
        blocking (λ e. mined (Bitcoind.error_text e)) (λ client. Bitcoind.mine b t h client blocks)
    return (mined text)
  cmd_mine _ = throw usage
