-- ===== src/Bolt/Message/RoundTrip.antt =====
-- The valid messages of every type, and round trips of the whole codec.
use ln_gossip_sim.Base.{
  ℕ, ◌%◌, ◌≡◌, ◌≢◌, arith, ◌==◌, ◌++◌, append-nil, [], Bytes, AllBytes, Outcome, ok, err, panic,
  stuck, ◌>>=◌, Ensures, holds, rejected, Ensures-if, Ensures-bind,
}
use ln_gossip_sim.Bitcoin.{Bitcoin, BitcoinLaws}
use ln_gossip_sim.Bolt.Types.{BoltError}
use ln_gossip_sim.Bolt.Wire.{u16}
use ln_gossip_sim.Bolt.Wire.Arrays.{Fits, uint-IsLawful}
use ln_gossip_sim.Bolt.Warning
use ln_gossip_sim.Bolt.Warning.{Warning}
use ln_gossip_sim.Bolt.Warning.RoundTrip as WarningRoundTrip
use ln_gossip_sim.Bolt.Init
use ln_gossip_sim.Bolt.Init.{Init}
use ln_gossip_sim.Bolt.Init.RoundTrip as InitRoundTrip
use ln_gossip_sim.Bolt.Error
use ln_gossip_sim.Bolt.Error.{Error}
use ln_gossip_sim.Bolt.Error.RoundTrip as ErrorRoundTrip
use ln_gossip_sim.Bolt.Ping
use ln_gossip_sim.Bolt.Ping.{Ping}
use ln_gossip_sim.Bolt.Ping.RoundTrip as PingRoundTrip
use ln_gossip_sim.Bolt.Pong
use ln_gossip_sim.Bolt.Pong.{Pong}
use ln_gossip_sim.Bolt.Pong.RoundTrip as PongRoundTrip
use ln_gossip_sim.Bolt.OpenChannel
use ln_gossip_sim.Bolt.OpenChannel.{OpenChannel}
use ln_gossip_sim.Bolt.OpenChannel.RoundTrip as OpenChannelRoundTrip
use ln_gossip_sim.Bolt.FundingCreated
use ln_gossip_sim.Bolt.FundingCreated.{FundingCreated}
use ln_gossip_sim.Bolt.FundingCreated.RoundTrip as FundingCreatedRoundTrip
use ln_gossip_sim.Bolt.ChannelAnnouncement
use ln_gossip_sim.Bolt.ChannelAnnouncement.{ChannelAnnouncement}
use ln_gossip_sim.Bolt.ChannelAnnouncement.RoundTrip as ChannelAnnouncementRoundTrip
use ln_gossip_sim.Bolt.NodeAnnouncement
use ln_gossip_sim.Bolt.NodeAnnouncement.{NodeAnnouncement}
use ln_gossip_sim.Bolt.NodeAnnouncement.RoundTrip as NodeAnnouncementRoundTrip
use ln_gossip_sim.Bolt.ChannelUpdate
use ln_gossip_sim.Bolt.ChannelUpdate.{ChannelUpdate}
use ln_gossip_sim.Bolt.ChannelUpdate.RoundTrip as ChannelUpdateRoundTrip
use ln_gossip_sim.Bolt.QueryChannelRange
use ln_gossip_sim.Bolt.QueryChannelRange.{QueryChannelRange}
use ln_gossip_sim.Bolt.QueryChannelRange.RoundTrip as QueryChannelRangeRoundTrip
use ln_gossip_sim.Bolt.ReplyChannelRange
use ln_gossip_sim.Bolt.ReplyChannelRange.{ReplyChannelRange}
use ln_gossip_sim.Bolt.ReplyChannelRange.RoundTrip as ReplyChannelRangeRoundTrip
use ln_gossip_sim.Bolt.Message.{
  Message, warning, init, error, ping, pong, open_channel, funding_created, channel_announcement,
  node_announcement, channel_update, query_channel_range, reply_channel_range, unknown, msg_type,
  encode_body, encode, decode_body, decode,
}

-- An odd type that has no codec.
abbrev pub IsUnknown : ℕ → Type 0
IsUnknown t = (t % 2 ≡ 1) × (t ≢ 1) × (t ≢ 17) × (t ≢ 19) × (t ≢ 257) × (t ≢ 263)

abbrev pub IsValid : (b : Bitcoin) → Message b → Type 0
IsValid b (warning m) = WarningRoundTrip.IsValid m
IsValid b (init m) = InitRoundTrip.IsValid m
IsValid b (error m) = ErrorRoundTrip.IsValid m
IsValid b (ping m) = PingRoundTrip.IsValid m
IsValid b (pong m) = PongRoundTrip.IsValid m
IsValid b (open_channel m) = OpenChannelRoundTrip.IsValid b m
IsValid b (funding_created m) = FundingCreatedRoundTrip.IsValid b m
IsValid b (channel_announcement m) = ChannelAnnouncementRoundTrip.IsValid b m
IsValid b (node_announcement m) = NodeAnnouncementRoundTrip.IsValid b m
IsValid b (channel_update m) = ChannelUpdateRoundTrip.IsValid b m
IsValid b (query_channel_range m) = QueryChannelRangeRoundTrip.IsValid m
IsValid b (reply_channel_range m) = ReplyChannelRangeRoundTrip.IsValid m
IsValid b (unknown t payload) = Fits 2 t × IsUnknown t × AllBytes payload

lift :
    {E M N : Type 0} (r : Outcome E Bytes) (d : Bytes → Outcome E M) (k : M → N) (m : M)
    → (r >>= d) ≡ ok m
    → (r >>= λ c. d c >>= λ x. ok (k x)) ≡ ok (k m)
lift (ok c) d k m h = rw h
lift (err e) d k m h = cc
lift panic d k m h = cc
lift stuck d k m h = cc

whole :
    {E M : Type 0} (d : Bytes → Outcome E M) (e : Bytes) (m : M) → d (e ++ []) ≡ ok m → d e ≡ ok m
whole d e m h = rw append-nil at h

bind_assoc :
    {E A : Type 0} (front : Bytes) (d : Bytes → Outcome E A) (a : A) (r : Outcome E Bytes)
    → (r >>= λ body. d (front ++ body)) ≡ ok a
    → ((r >>= λ body. ok (front ++ body)) >>= d) ≡ ok a
bind_assoc front d a (ok body) h = h
bind_assoc front d a (err e) h = cc
bind_assoc front d a panic h = cc
bind_assoc front d a stuck h = cc

pub msg_type-Fits : {b : Bitcoin} (m : Message b) → IsValid b m → Fits 2 (msg_type b m)
unfolding msg_type
msg_type-Fits (unknown t payload) v = v.0
msg_type-Fits _ v = omega arith

module _ (b : Bitcoin) (laws : BitcoinLaws b) where
  decode_body-encode_body :
      (m : Message b) → IsValid b m → (encode_body b m >>= decode_body b (msg_type b m)) ≡ ok m
  unfolding encode_body decode_body msg_type
  decode_body-encode_body (warning m) v =
      rw (whole (Warning.decode) (Warning.encode m) m (WarningRoundTrip.decode-encode m [] v))
  decode_body-encode_body (init m) v =
      lift (Init.encode m) (Init.decode) init m (InitRoundTrip.decode-encode m v)
  decode_body-encode_body (error m) v =
      rw (whole (Error.decode) (Error.encode m) m (ErrorRoundTrip.decode-encode m [] v))
  decode_body-encode_body (ping m) v =
      rw (whole (Ping.decode) (Ping.encode m) m (PingRoundTrip.decode-encode m [] v))
  decode_body-encode_body (pong m) v =
      rw (whole (Pong.decode) (Pong.encode m) m (PongRoundTrip.decode-encode m [] v))
  decode_body-encode_body (open_channel m) v =
      lift (OpenChannel.encode b m) (OpenChannel.decode b) open_channel m
        (OpenChannelRoundTrip.decode-encode b laws m v)
  decode_body-encode_body (funding_created m) v = rw (
      whole (FundingCreated.decode b) (FundingCreated.encode b m) m
        (FundingCreatedRoundTrip.decode-encode b laws m [] v))
  decode_body-encode_body (channel_announcement m) v = rw (
      whole (ChannelAnnouncement.decode b) (ChannelAnnouncement.encode b m) m
        (ChannelAnnouncementRoundTrip.decode-encode b laws m [] v))
  decode_body-encode_body (node_announcement m) v = rw (
      whole (NodeAnnouncement.decode b) (NodeAnnouncement.encode b m) m
        (NodeAnnouncementRoundTrip.decode-encode b laws m [] v))
  decode_body-encode_body (channel_update m) v = rw (
      whole (ChannelUpdate.decode b) (ChannelUpdate.encode b m) m
        (ChannelUpdateRoundTrip.decode-encode b laws m [] v))
  decode_body-encode_body (query_channel_range m) v =
      lift (QueryChannelRange.encode m) (QueryChannelRange.decode) query_channel_range m
        (QueryChannelRangeRoundTrip.decode-encode m v)
  decode_body-encode_body (reply_channel_range m) v =
      lift (ReplyChannelRange.encode m) (ReplyChannelRange.decode) reply_channel_range m
        (ReplyChannelRangeRoundTrip.decode-encode m v)
  decode_body-encode_body (unknown t payload) v = ground arith

  prefixed :
      (m : Message b)
      → IsValid b m
      → (r : Outcome BoltError Bytes) → (r >>= decode_body b (msg_type b m)) ≡ ok m
      → (r >>= λ body. decode b (u16.write (msg_type b m) ++ body)) ≡ ok m
  unfolding decode
  prefixed m v (ok body) h =
      rw ((uint-IsLawful 2).read-write (msg_type b m) body (msg_type-Fits m v)) h
  prefixed m v (err e) h = cc
  prefixed m v panic h = cc
  prefixed m v stuck h = cc

  -- Under the laws of keys, signatures and transaction ids: encoding a valid message does not panic,
  -- and decoding the bytes gives the message back.
  pub decode-encode : (m : Message b) → IsValid b m → (encode b m >>= decode b) ≡ ok m
  unfolding encode
  decode-encode m v =
      bind_assoc (u16.write (msg_type b m)) (decode b) m (encode_body b m)
        (prefixed m v (encode_body b m) (decode_body-encode_body m v))

  decode_body-Ensures :
      (t : ℕ) (cursor : Bytes)
      → Fits 2 t
      → AllBytes cursor
      → Ensures (IsValid b) (decode_body b t cursor)
  unfolding decode_body
  decode_body-Ensures t cursor ht h =
      Ensures-if (t == 1)
        (λ _. Ensures-bind (WarningRoundTrip.decode-Ensures cursor h) (λ m p. holds p.0))
        λ e1.
          Ensures-if (t == 16)
            (λ _. Ensures-bind (InitRoundTrip.decode-Ensures cursor h) (λ m p. holds p))
            λ e16.
              Ensures-if (t == 17)
                (λ _. Ensures-bind (ErrorRoundTrip.decode-Ensures cursor h) (λ m p. holds p.0))
                λ e17.
                  Ensures-if (t == 18)
                    (λ _. Ensures-bind (PingRoundTrip.decode-Ensures cursor h) (λ m p. holds p.0))
                    λ e18.
                      Ensures-if (t == 19)
                        (λ _.
                          Ensures-bind (PongRoundTrip.decode-Ensures cursor h) (λ m p. holds p.0))
                        λ e19.
                          Ensures-if (t == 32)
                            (λ _.
                              Ensures-bind (OpenChannelRoundTrip.decode-Ensures b laws cursor h)
                                (λ m p. holds p))
                            λ e32.
                              Ensures-if (t == 34)
                                (λ _.
                                  Ensures-bind
                                    (FundingCreatedRoundTrip.decode-Ensures b laws cursor h)
                                    (λ m p. holds p.0))
                                λ e34.
                                  Ensures-if (t == 256)
                                    (λ _.
                                      Ensures-bind
                                        (ChannelAnnouncementRoundTrip.decode-Ensures b laws cursor
                                          h)
                                        (λ m p. holds p.0))
                                    λ e256.
                                      Ensures-if (t == 257)
                                        (λ _.
                                          Ensures-bind
                                            (NodeAnnouncementRoundTrip.decode-Ensures b laws cursor
                                              h)
                                            (λ m p. holds p.0))
                                        λ e257.
                                          Ensures-if (t == 258)
                                            (λ _.
                                              Ensures-bind
                                                (ChannelUpdateRoundTrip.decode-Ensures b laws cursor
                                                  h)
                                                (λ m p. holds p.0))
                                            λ e258.
                                              Ensures-if (t == 263)
                                                (λ _.
                                                  Ensures-bind
                                                    (QueryChannelRangeRoundTrip.decode-Ensures
                                                      cursor h)
                                                    (λ m p. holds p))
                                                λ e263.
                                                  Ensures-if (t == 264)
                                                    (λ _.
                                                      Ensures-bind
                                                        (ReplyChannelRangeRoundTrip.decode-Ensures
                                                          cursor h)
                                                        (λ m p. holds p))
                                                    λ e264.
                                                      Ensures-if (t % 2 == 0) (λ _. rejected)
                                                        λ odd. holds (ht, ground arith, h)

  -- Under the laws of keys, signatures and transaction ids: decoding any bytes ends, in an error or with
  -- a valid message.
  pub decode-Ensures : (input : Bytes) → AllBytes input → Ensures (IsValid b) (decode b input)
  unfolding decode
  decode-Ensures input h =
      Ensures-bind ((uint-IsLawful 2).read-Ensures input h)
        λ (t, cursor) p. decode_body-Ensures t cursor p.0 p.1
