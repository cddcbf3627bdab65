-- ===== src/Noise/Handshake/Responder.antt =====
-- noise/src/handshake.rs: the methods of the responder.
use ln_gossip_sim.Base.{some, [], ◌∷◌, ◌++◌, Bytes, map_err}
use ln_gossip_sim.Base.State.{Method, ◌>>=◌, ◌>>◌, return, call, this, modify, expect, ok_or}
use ln_gossip_sim.Bitcoin.{Bitcoin}
use ln_gossip_sim.Crypto.{Crypto}
use ln_gossip_sim.Noise.NoiseError.{
  NoiseError, act_one_bad_version, act_one_bad_pubkey, act_one_bad_tag, act_three_bad_version,
  act_three_bad_ciphertext, act_three_bad_pubkey, act_three_bad_tag,
}
use ln_gossip_sim.Noise.Cipher.{encrypt_with_ad, decrypt_with_ad}
use ln_gossip_sim.Noise.Handshake.{
  NoiseHandshake, responder_start, responder_awaiting_act_three, complete, version, act_version,
  act_field, act_tail, copy, mix_hash, mix_key, require, require_version,
}

module _ (b : Bitcoin) (c : Crypto) (ecdh : b.SecretKey → b.PublicKey → Bytes) where
  abbrev Act : Type 0 → Type 0
  Act A = Method (NoiseHandshake b) NoiseError A

  unfoldable pub build_act_two : Act Bytes
  unfolding mix_hash mix_key
  build_act_two = do
    s ← this
    let e_pub = b.serialize (b.from_secret_key s.local_ephemeral)
    modify (mix_hash b c ecdh e_pub)
    re ← call (expect s.remote_ephemeral)
    temp_k2 ← mix_key b c ecdh (ecdh s.local_ephemeral re)
    modify (λ s. record s { temp_k2 = some temp_k2 })
    s ← this
    tag ← call (encrypt_with_ad c temp_k2 0 s.h [])
    modify (mix_hash b c ecdh tag)
    tag ← call (copy 16 tag)
    modify (λ s. record s { state = responder_awaiting_act_three })
    return (version ∷ (e_pub ++ tag))

  unfoldable pub process_act_one : Bytes → Act Bytes
  unfolding mix_hash mix_key require require_version
  process_act_one act_one = do
    require b c ecdh responder_start
    require_version b c ecdh act_one_bad_version (act_version act_one)
    let re_bytes = act_field 33 act_one
    let tag = act_tail 33 act_one
    re ← call (ok_or (b.public_key_from_slice re_bytes) act_one_bad_pubkey)
    modify (λ s. record s { remote_ephemeral = some re })
    modify (mix_hash b c ecdh re_bytes)
    s ← this
    temp_k1 ← mix_key b c ecdh (ecdh s.local_static re)
    s ← this
    _ ← call (map_err (λ _. act_one_bad_tag) (decrypt_with_ad c temp_k1 0 s.h tag))
    modify (mix_hash b c ecdh tag)
    build_act_two

  unfoldable pub process_act_three : Bytes → Act b.PublicKey
  unfolding mix_hash mix_key require require_version
  process_act_three act_three = do
    require b c ecdh responder_awaiting_act_three
    require_version b c ecdh act_three_bad_version (act_version act_three)
    let sealed = act_field 49 act_three
    let tag = act_tail 49 act_three
    s ← this
    temp_k2 ← call (expect s.temp_k2)
    rs_bytes ←
        call (map_err (λ _. act_three_bad_ciphertext) (decrypt_with_ad c temp_k2 1 s.h sealed))
    rs ← call (ok_or (b.public_key_from_slice rs_bytes) act_three_bad_pubkey)
    modify (λ s. record s { remote_static = some rs })
    modify (mix_hash b c ecdh sealed)
    temp_k3 ← mix_key b c ecdh (ecdh s.local_ephemeral rs)
    s ← this
    _ ← call (map_err (λ _. act_three_bad_tag) (decrypt_with_ad c temp_k3 0 s.h tag))
    modify (λ s. record s { state = complete })
    return rs
