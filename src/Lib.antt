-- ===== src/Lib.antt =====
-- The Lightning gossip simulator: a daemon that connects to a Lightning node, speaks BOLT 1, 2 and 7
-- over the encrypted transport of BOLT 8, and sends gossip of its own making.
--
-- The program is three crates. `bolt` turns messages into bytes and back; `noise` is the handshake
-- and the encrypted framing of a connection; `ln-gossip-sim` joins the two to a daemon. A message is
-- encoded by `bolt`, encrypted by `noise` as a packet with a length header, and takes the way back at
-- the peer.
--
-- Which file models what:
--   Base: shared names, tests on numbers, lists, outcomes of Rust calls, methods on `&mut self`, and
--     the bytes of machine words, texts as lists of code points with their words and lines, decimal
--     numbers, and integers with a sign.
--   Bitcoin, Crypto: the parts of the crates bitcoin, chacha20poly1305, hkdf and sha2 that the code
--     calls. They are parameters, with their documented behaviour as laws.
--   Bolt.Types, Bolt.Wire: bolt/src/types.rs and wire.rs. A `WireFormat` is the trait: `read` takes
--     the cursor and gives it back behind the value, `write` gives the bytes that are appended.
--   Bolt.Tlv: bolt/src/tlv.rs.
--   Bolt.Error, Warning, Init, Ping, Pong, OpenChannel, FundingCreated, ChannelAnnouncement,
--     NodeAnnouncement, ChannelUpdate, QueryChannelRange, ReplyChannelRange: the file of bolt/src with
--     the message's name. The child RoundTrip of each is about its codec, Signing about signatures.
--   Bolt.Message, Bolt.MsgType: bolt/src/lib.rs.
--   Noise.Cipher, SendCipher, RecvCipher, NoiseCipher: noise/src/cipher.rs. Noise.Rotation is the key
--     schedule of BOLT 8 as a function of the number of operations, the specification of the
--     rotations; Noise.Transport is about packets.
--   Noise.Handshake: noise/src/handshake.rs; its children Initiator and Responder are the methods of
--     the roles, Agreement is about a whole handshake and States about the state machine.
--   Noise.NoiseError: noise/src/error.rs. Noise.Connection: noise/src/connection.rs.
--   GossipSim.Conn: ln-gossip-sim/src/conn.rs. The stream of the crate tokio is a parameter,
--     GossipSim.Tcp; Conn.Messages is the loop that answers pings, Conn.Connect the set-up of a
--     connection, Conn.Dropped a receive whose future is dropped; Conn.Delivery is about runs of
--     messages, Conn.Connect.Succeeds about a peer that follows the protocol, and Conn.Blocking
--     compares the blocking connection with the halves.
--   GossipSim.Host: what the daemon takes from other crates and from the system, a parameter.
--   GossipSim.Bitcoind: ln-gossip-sim/src/bitcoind.rs and error.rs; Bitcoind.Search and
--     Bitcoind.Funding are about the funding output that is found, Bitcoind.Address about its address. GossipSim.Keys:
--     ln-gossip-sim/src/keys.rs.
--   GossipSim.Scid, GossipSim.Daemon: ln-gossip-sim/src/bin/simd.rs. Daemon.Table has what is done
--     under the lock of the table of peers, PeerMessage the reader task, Commands, Announce and
--     Dispatch the commands. Daemon.Steps is the table under any interleaving, as a step relation;
--     Refinement, Writing, Sending, Forwarding, Replies and Reading are about the commands and the task. The
--     `Arc` of a writer is its index in a store, which the table and the reader task share. Control
--     is a connection to the control socket, and Main is `main` with the tasks of the clients.
--   GossipSim.Cli: ln-gossip-sim/src/bin/cli.rs, the lines that the client sends and what it prints;
--     Cli.Session puts it together with the daemon.
--   Examples: concrete parameters, for which the laws are proved, and runs.
--
-- Conventions. Bytes are lists of natural numbers below 256. An integer of w bits is a natural number
-- with its bound as a hypothesis or its wrap-around written out. `Outcome` has the two sides of a
-- `Result`, a value for a panic, and `stuck` for fuel that ran out. The decoder of TLV streams runs on
-- fuel, one step for each byte of the input: a record takes at least two bytes, so it is enough.
-- The loop of `recv_message` runs on fuel: a round reads a packet, so that more steps than there are
-- bytes to be read are enough.
--
-- The loop of a reader task is a function of the list of events that `tokio::select!` picks: a message, or
-- a tick, which drops a receive in front of a packet or in the middle of one.
--
-- In Main the commands of clients take turns line by line; Daemon.Steps has the table of peers where
-- they interleave inside of a command: a command that connects has two steps, and stands in the table
-- between them. A reader task of which the abort was asked for ends at its next await, or where its
-- body ends before that.
--
-- Not modelled: logging, the texts around the values of an answer, which are a parameter where they
-- matter, the parsing of arguments by clap, and failures of the control socket at the client.
pub mod Base
pub mod Bitcoin
pub mod Bolt
pub mod Crypto
pub mod Noise
pub mod GossipSim
mod Examples
