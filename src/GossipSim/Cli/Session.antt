-- ===== src/GossipSim/Cli/Session.antt =====
-- ln-gossip-sim/src/bin/cli.rs against ln-gossip-sim/src/bin/simd.rs: a run of the client.
use ln_gossip_sim.Base.{
  ℕ, ◌≡◌, ◌≢◌, ◌⊎◌, inl, inr, false, ap, arith, List, [], ◌∷◌, ◌++◌, append-nil, All, All-append,
  Bytes, Outcome, ok, err,
}
use ln_gossip_sim.Base.Text.{Text, chars, is_whitespace, IsWord}
use ln_gossip_sim.Base.Lines.{lines-line, lines-print_lines, print_lines, IsLine}
use ln_gossip_sim.Base.Decimal.{to_text}
use ln_gossip_sim.Bitcoin.{Bitcoin}
use ln_gossip_sim.Crypto.{Crypto}
use ln_gossip_sim.GossipSim.Tcp.{Tcp}
use ln_gossip_sim.GossipSim.Host.{Host}
use ln_gossip_sim.GossipSim.Cli
use ln_gossip_sim.GossipSim.Cli.{line, request, printed}
use ln_gossip_sim.GossipSim.Cli.Words.{to_text-IsWord}
use ln_gossip_sim.GossipSim.Cli.Understood.{IsPlain, meant, handle_command-line}
use ln_gossip_sim.GossipSim.Daemon.{Answer, Daemon}
use ln_gossip_sim.GossipSim.Daemon.Dispatch.{handle_command}
use ln_gossip_sim.GossipSim.Daemon.Control.{serve, serve_lines}

space_or_line : (c : ℕ) → is_whitespace c ≡ false → (c ≢ 10) × (c ≢ 13)
unfolding is_whitespace
space_or_line c h = ground arith

word-IsLine : (w : Text) → All (λ c. is_whitespace c ≡ false) w → IsLine w
word-IsLine [] h = tt
word-IsLine (c ∷ w) (h, hs) = (space_or_line c h, word-IsLine w hs)

IsWord-IsLine : (w : Text) → IsWord w → IsLine w
IsWord-IsLine [] h = tt
IsWord-IsLine (c ∷ w) h = word-IsLine (c ∷ w) h

-- A space between two texts.
spaced : (v w : Text) → IsLine v → IsLine w → IsLine (v ++ b' ' ∷ w)
spaced v w hv hw = All-append (λ c. (c ≢ 10) × (c ≢ 13)) v (b' ' ∷ w) hv (omega arith, hw)

line-IsLine : (command : Cli.Command) → IsPlain command → IsLine (line command)
unfolding line
line-IsLine (Cli.connect pubkey addr) (hk, ha) =
    spaced (chars "connect") (pubkey ++ b' ' ∷ addr) (omega arith)
      (spaced pubkey addr (IsWord-IsLine pubkey hk) (IsWord-IsLine addr ha))
line-IsLine (Cli.disconnect pubkey) hk =
    spaced (chars "disconnect") pubkey (omega arith) (IsWord-IsLine pubkey hk)
line-IsLine Cli.peers h = omega arith
line-IsLine Cli.info h = omega arith
line-IsLine Cli.stop h = omega arith
line-IsLine (Cli.mine blocks) hb =
    spaced (chars "mine") (to_text blocks) (omega arith)
      (IsWord-IsLine (to_text blocks) (to_text-IsWord blocks hb))
line-IsLine (Cli.send_channel_announcement pubkey) hk =
    spaced (chars "sendchannelannouncement") pubkey (omega arith) (IsWord-IsLine pubkey hk)
line-IsLine (Cli.send_channel_announcement_2 pubkey) hk =
    spaced (chars "sendchannelannouncement2") pubkey (omega arith) (IsWord-IsLine pubkey hk)
line-IsLine (Cli.send_node_announcement pubkey) hk =
    spaced (chars "sendnodeannouncement") pubkey (omega arith) (IsWord-IsLine pubkey hk)
line-IsLine (Cli.send_channel_update pubkey scid) (hk, hv) =
    spaced (chars "sendchannelupdate") (pubkey ++ b' ' ∷ scid) (omega arith)
      (spaced pubkey scid (IsWord-IsLine pubkey hk) (IsWord-IsLine scid hv))
line-IsLine (Cli.send_message pubkey message) (hk, hv) =
    spaced (chars "sendmessage") (pubkey ++ b' ' ∷ message) (omega arith)
      (spaced pubkey message (IsWord-IsLine pubkey hk) (IsWord-IsLine message hv))

module _ (b : Bitcoin) (t : Tcp) (h : Host b t) (c : Crypto)
    (ecdh : b.SecretKey → b.PublicKey → Bytes) (text : Answer b → Text) where
  -- A command answers, by an early return or at its end, and leaves the daemon so.
  abbrev pub Ends : Outcome (Answer b) (Answer b) × Daemon b t h → Answer b → Daemon b t h → Type 0
  Ends m a d = (m ≡ (ok a, d)) ⊎ (m ≡ (err a, d))

  served-one :
      (l : Text) (a : Answer b) (d d' : Daemon b t h)
      → Ends (handle_command b t h c ecdh l d) a d'
      → serve_lines b t h c ecdh text (l ∷ []) d ≡ (text a, d')
  unfolding serve_lines
  served-one l a d d' (inl e) = rw (e, append-nil (text a))
  served-one l a d d' (inr e) = rw (e, append-nil (text a))

  -- Where the arguments are words without whitespace and the number of blocks has 64 bits, and the command
  -- that the client was given answers in lines, each with a newline behind it and without others, in
  -- the daemon: for what the client sends, the daemon runs this one command and writes its answer, and
  -- what the client prints of that is the answer.
  pub session :
      (command : Cli.Command) (a : Answer b) (ls : List Text) (d d' : Daemon b t h)
      → IsPlain command
      → Ends (meant b t h c ecdh command d) a d'
      → All IsLine ls
      → text a ≡ print_lines ls
      → (serve b t h c ecdh text (request command) d ≡ (text a, d')) × (printed (text a) ≡ text a)
  unfolding serve request printed
  session command a ls d d' plain ends are_lines whole =
      let one = lines-line (line command) (line-IsLine command plain) in
      let same = handle_command-line b t h c ecdh command plain in
      (
        rw one (served-one (line command) a d d' (rw same ends)),
        rw whole (ap print_lines (lines-print_lines ls are_lines)),
      )
