-- ===== src/Bolt/OpenChannel.antt =====
-- bolt/src/open_channel.rs
use ln_gossip_sim.Base.{ℕ, Option, [], ◌∷◌, ◌++◌, Bytes, Outcome, ok, ◌>>=◌}
use ln_gossip_sim.Bitcoin.{Bitcoin}
use ln_gossip_sim.Bolt.Types.{BoltError}
use ln_gossip_sim.Bolt.Wire.{array, channel_id, u64, u32, u16, public_key, u8}
use ln_gossip_sim.Bolt.Tlv
pub mod RoundTrip

abbrev pub tlv_upfront_shutdown_script : ℕ
tlv_upfront_shutdown_script = 0

abbrev pub tlv_channel_type : ℕ
tlv_channel_type = 1

pub record OpenChannelTlvs : Type 0 where
  pub upfront_shutdown_script : Option Bytes
  pub channel_type : Option Bytes

pub record OpenChannel (b : Bitcoin) : Type 0 where
  pub chain_hash : Bytes
  pub temporary_channel_id : Bytes
  pub funding_satoshis : ℕ
  pub push_msat : ℕ
  pub dust_limit_satoshis : ℕ
  pub max_htlc_value_in_flight_msat : ℕ
  pub channel_reserve_satoshis : ℕ
  pub htlc_minimum_msat : ℕ
  pub feerate_per_kw : ℕ
  pub to_self_delay : ℕ
  pub max_accepted_htlcs : ℕ
  pub funding_pubkey : b.PublicKey
  pub revocation_basepoint : b.PublicKey
  pub payment_basepoint : b.PublicKey
  pub delayed_payment_basepoint : b.PublicKey
  pub htlc_basepoint : b.PublicKey
  pub first_per_commitment_point : b.PublicKey
  pub channel_flags : ℕ
  pub tlvs : OpenChannelTlvs

unfoldable pub encode {ℓ} : {E : Type ℓ} → (b : Bitcoin) → OpenChannel b → Outcome E Bytes
encode b m = do
  stream ← Tlv.add_option Tlv.empty tlv_upfront_shutdown_script m.tlvs.upfront_shutdown_script
  stream ← Tlv.add_option stream tlv_channel_type m.tlvs.channel_type
  ok (
      (array 32).write m.chain_hash
      ++ (channel_id.write m.temporary_channel_id
          ++ (u64.write m.funding_satoshis
              ++ (u64.write m.push_msat
                  ++ (u64.write m.dust_limit_satoshis
                      ++ (u64.write m.max_htlc_value_in_flight_msat
                          ++ (u64.write m.channel_reserve_satoshis
                              ++ (u64.write m.htlc_minimum_msat
                                  ++ (u32.write m.feerate_per_kw
                                      ++ (u16.write m.to_self_delay
                                          ++ (u16.write m.max_accepted_htlcs
                                              ++ ((public_key b).write m.funding_pubkey
                                                  ++ ((public_key b).write m.revocation_basepoint
                                                      ++ ((public_key b).write m.payment_basepoint
                                                          ++ ((public_key b).write
                                                            m.delayed_payment_basepoint
                                                            ++ ((public_key b).write
                                                            m.htlc_basepoint
                                                            ++ ((public_key b).write
                                                            m.first_per_commitment_point
                                                            ++ (u8.write m.channel_flags
                                                            ++ Tlv.encode stream))))))))))))))))))

unfoldable pub decode : (b : Bitcoin) → Bytes → Outcome BoltError (OpenChannel b)
decode b payload = do
  (chain_hash, cursor) ← (array 32).read payload
  (temporary_channel_id, cursor) ← channel_id.read cursor
  (funding_satoshis, cursor) ← u64.read cursor
  (push_msat, cursor) ← u64.read cursor
  (dust_limit_satoshis, cursor) ← u64.read cursor
  (max_htlc_value_in_flight_msat, cursor) ← u64.read cursor
  (channel_reserve_satoshis, cursor) ← u64.read cursor
  (htlc_minimum_msat, cursor) ← u64.read cursor
  (feerate_per_kw, cursor) ← u32.read cursor
  (to_self_delay, cursor) ← u16.read cursor
  (max_accepted_htlcs, cursor) ← u16.read cursor
  (funding_pubkey, cursor) ← (public_key b).read cursor
  (revocation_basepoint, cursor) ← (public_key b).read cursor
  (payment_basepoint, cursor) ← (public_key b).read cursor
  (delayed_payment_basepoint, cursor) ← (public_key b).read cursor
  (htlc_basepoint, cursor) ← (public_key b).read cursor
  (first_per_commitment_point, cursor) ← (public_key b).read cursor
  (channel_flags, cursor) ← u8.read cursor
  stream ← Tlv.decode_with_known cursor (tlv_upfront_shutdown_script ∷ [])
  ok (record {
    chain_hash = chain_hash;
    temporary_channel_id = temporary_channel_id;
    funding_satoshis = funding_satoshis;
    push_msat = push_msat;
    dust_limit_satoshis = dust_limit_satoshis;
    max_htlc_value_in_flight_msat = max_htlc_value_in_flight_msat;
    channel_reserve_satoshis = channel_reserve_satoshis;
    htlc_minimum_msat = htlc_minimum_msat;
    feerate_per_kw = feerate_per_kw;
    to_self_delay = to_self_delay;
    max_accepted_htlcs = max_accepted_htlcs;
    funding_pubkey = funding_pubkey;
    revocation_basepoint = revocation_basepoint;
    payment_basepoint = payment_basepoint;
    delayed_payment_basepoint = delayed_payment_basepoint;
    htlc_basepoint = htlc_basepoint;
    first_per_commitment_point = first_per_commitment_point;
    channel_flags = channel_flags;
    tlvs = record {
      upfront_shutdown_script = Tlv.get stream tlv_upfront_shutdown_script;
      channel_type = Tlv.get stream tlv_channel_type;
    };
  })
