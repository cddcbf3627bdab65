-- ===== src/Noise/Handshake/Initiator.antt =====
-- noise/src/handshake.rs: the methods of the initiator, and the extraction of the cipher.
use ln_gossip_sim.Base.{
  some, [], ◌∷◌, ◌++◌, if◌then◌else◌, Bytes, Outcome, ok, err, panic, stuck, map_err,
}
use ln_gossip_sim.Base.State.{Method, ◌>>=◌, ◌>>◌, return, call, this, modify, expect, ok_or}
use ln_gossip_sim.Bitcoin.{Bitcoin}
use ln_gossip_sim.Crypto.{Crypto}
use ln_gossip_sim.Noise.NoiseError.{
  NoiseError, act_two_bad_version, act_two_bad_pubkey, act_two_bad_tag, handshake_incomplete,
}
use ln_gossip_sim.Noise.Cipher.{encrypt_with_ad, decrypt_with_ad, hkdf_two_keys}
use ln_gossip_sim.Noise.NoiseCipher
use ln_gossip_sim.Noise.NoiseCipher.{NoiseCipher}
use ln_gossip_sim.Noise.Handshake.{
  NoiseHandshake, initiator, responder, initiator_start, initiator_awaiting_act_two, complete, ◌is◌,
  version, act_version, act_field, act_tail, copy, mix_hash, mix_key, require, require_version,
}

module _ (b : Bitcoin) (c : Crypto) (ecdh : b.SecretKey → b.PublicKey → Bytes) where
  abbrev Act : Type 0 → Type 0
  Act A = Method (NoiseHandshake b) NoiseError A

  unfoldable pub get_act_one : Act Bytes
  unfolding mix_hash mix_key require
  get_act_one = do
    require b c ecdh initiator_start
    s ← this
    let e_pub = b.serialize (b.from_secret_key s.local_ephemeral)
    modify (mix_hash b c ecdh e_pub)
    rs ← call (expect s.remote_static)
    temp_k1 ← mix_key b c ecdh (ecdh s.local_ephemeral rs)
    s ← this
    tag ← call (encrypt_with_ad c temp_k1 0 s.h [])
    modify (mix_hash b c ecdh tag)
    tag ← call (copy 16 tag)
    modify (λ s. record s { state = initiator_awaiting_act_two })
    return (version ∷ (e_pub ++ tag))

  unfoldable pub build_act_three : Act Bytes
  unfolding mix_hash mix_key
  build_act_three = do
    s ← this
    temp_k2 ← call (expect s.temp_k2)
    let s_pub = b.serialize (b.from_secret_key s.local_static)
    sealed ← call (encrypt_with_ad c temp_k2 1 s.h s_pub)
    modify (mix_hash b c ecdh sealed)
    re ← call (expect s.remote_ephemeral)
    temp_k3 ← mix_key b c ecdh (ecdh s.local_static re)
    s ← this
    tag ← call (encrypt_with_ad c temp_k3 0 s.h [])
    sealed ← call (copy 49 sealed)
    tag ← call (copy 16 tag)
    modify (λ s. record s { state = complete })
    return (version ∷ (sealed ++ tag))

  unfoldable pub process_act_two : Bytes → Act Bytes
  unfolding mix_hash mix_key require require_version
  process_act_two act_two = do
    require b c ecdh initiator_awaiting_act_two
    require_version b c ecdh act_two_bad_version (act_version act_two)
    let re_bytes = act_field 33 act_two
    let tag = act_tail 33 act_two
    re ← call (ok_or (b.public_key_from_slice re_bytes) act_two_bad_pubkey)
    modify (λ s. record s { remote_ephemeral = some re })
    modify (mix_hash b c ecdh re_bytes)
    s ← this
    temp_k2 ← mix_key b c ecdh (ecdh s.local_ephemeral re)
    modify (λ s. record s { temp_k2 = some temp_k2 })
    s ← this
    _ ← call (map_err (λ _. act_two_bad_tag) (decrypt_with_ad c temp_k2 0 s.h tag))
    modify (mix_hash b c ecdh tag)
    build_act_three

  unfoldable pub get_final_keys : NoiseHandshake b → Outcome NoiseError (Bytes × Bytes)
  get_final_keys s =
      let (sk, rk) = hkdf_two_keys c s.ck [] in
      if s.state is complete
      then (elim s.role [ initiator ↦ ok (sk, rk) | responder ↦ ok (rk, sk) ])
      else err handshake_incomplete

  unfoldable pub into_cipher : NoiseHandshake b → Outcome NoiseError NoiseCipher
  unfolding get_final_keys
  into_cipher s = elim (get_final_keys s) [
    | ok (send_key, recv_key) ↦ ok (NoiseCipher.new send_key recv_key s.ck)
    | err e ↦ err e
    | panic ↦ panic
    | stuck ↦ stuck
  ]
