-- ===== src/Noise/Handshake/Agreement.antt =====
-- A handshake between the two parties of noise/src/handshake.rs, act by act.
use ln_gossip_sim.Base.{
  ℕ, ◌≡◌, refl, ◌∙◌, arith, Option, none, some, [], ◌∷◌, ◌++◌, length, length-append, take, drop,
  take-append, drop-append, Bytes, ok,
}
use ln_gossip_sim.Bitcoin.{Bitcoin, BitcoinLaws}
use ln_gossip_sim.Crypto.{Crypto, CryptoLaws}
use ln_gossip_sim.Noise.NoiseError.{NoiseError}
use ln_gossip_sim.Noise.Cipher.{encode_nonce, encrypt_with_ad, decrypt_with_ad, hkdf_two_keys}
use ln_gossip_sim.Noise.Handshake.{
  NoiseHandshake, HandshakeState, initiator, responder, initiator_start, initiator_awaiting_act_two,
  responder_start, responder_awaiting_act_three, complete, copy, new_initiator, new_responder,
  initialize_state,
}
use ln_gossip_sim.Noise.Handshake.Initiator.{
  get_act_one, process_act_two, build_act_three, get_final_keys,
}
use ln_gossip_sim.Noise.Handshake.Responder.{process_act_one, build_act_two, process_act_three}

copy_lem :
    {E : Type 0} (size : ℕ) (bytes : Bytes)
    → length bytes ≡ size
    → copy {E = E} size bytes ≡ ok bytes
unfolding copy
copy_lem size bytes h = ground arith

take_field :
    (size : ℕ) (field tail : Bytes) → length field ≡ size → take size (field ++ tail) ≡ field
take_field size field tail h = rw (← h) (take-append field tail)

drop_field :
    (size : ℕ) (field tail : Bytes) → length field ≡ size → drop size (field ++ tail) ≡ tail
drop_field size field tail h = rw (← h) (drop-append field tail)

module _ (b : Bitcoin) (c : Crypto) (ecdh : b.SecretKey → b.PublicKey → Bytes) where
  abbrev pub point : b.SecretKey → Bytes
  point sk = b.serialize (b.from_secret_key sk)

  abbrev pub mixed : Bytes → Bytes → Bytes
  mixed h bytes = c.sha256 (h ++ bytes)

  abbrev pub next_ck : Bytes → Bytes → Bytes
  next_ck ck secret = (hkdf_two_keys c ck secret).0

  abbrev pub temp_key : Bytes → Bytes → Bytes
  temp_key ck secret = (hkdf_two_keys c ck secret).1

  abbrev pub Seals : Bytes → ℕ → Bytes → Bytes → Bytes → Type 0
  Seals key nonce ad msg sealed = c.encrypt key (encode_nonce nonce) ad msg ≡ some sealed

  abbrev pub Unseals : Bytes → ℕ → Bytes → Bytes → Bytes → Type 0
  Unseals key nonce ad sealed msg = c.decrypt key (encode_nonce nonce) ad sealed ≡ some msg

  module _ (laws : BitcoinLaws b) (si ei sr er : b.SecretKey) where
    abbrev initiator_at :
        HandshakeState → Bytes → Bytes → Option b.PublicKey → Option Bytes → NoiseHandshake b
    initiator_at state ck h re t = record {
      role = initiator;
      state = state;
      ck = ck;
      h = h;
      local_static = si;
      local_ephemeral = ei;
      remote_static = some (b.from_secret_key sr);
      remote_ephemeral = re;
      temp_k2 = t;
    }

    abbrev responder_at :
        HandshakeState
        → Bytes
        → Bytes
        → Option b.PublicKey
        → Option b.PublicKey
        → Option Bytes
        → NoiseHandshake b
    responder_at state ck h rs re t = record {
      role = responder;
      state = state;
      ck = ck;
      h = h;
      local_static = sr;
      local_ephemeral = er;
      remote_static = rs;
      remote_ephemeral = re;
      temp_k2 = t;
    }

    get_act_one_lem :
        (ck h tag : Bytes)
        → let k = temp_key ck (ecdh ei (b.from_secret_key sr)) in
          let h' = mixed h (point ei) in
          Seals k 0 h' [] tag
          → length tag ≡ 16
          → get_act_one b c ecdh (initiator_at initiator_start ck h none none) ≡ (
            ok (0 ∷ (point ei ++ tag)),
            initiator_at initiator_awaiting_act_two
                (next_ck ck (ecdh ei (b.from_secret_key sr)))
                (mixed h' tag)
                none
                none,
          )
    unfolding get_act_one encrypt_with_ad
    get_act_one_lem ck h tag e len = rw (e, copy_lem {E = NoiseError} 16 tag len)

    process_act_one_lem :
        (ck h tag es : Bytes)
        → ecdh sr (b.from_secret_key ei) ≡ es
        → let k = temp_key ck es in
          let h' = mixed h (point ei) in
          Unseals k 0 h' tag []
          → process_act_one b c ecdh
              (0 ∷ (point ei ++ tag))
              (responder_at responder_start ck h none none none)
            ≡ build_act_two b c ecdh (
                responder_at responder_start
                  (next_ck ck es)
                  (mixed h' tag)
                  none
                  (some (b.from_secret_key ei))
                  none)
    unfolding process_act_one decrypt_with_ad
    process_act_one_lem ck h tag es p e =
        let size = laws.length-serialize (b.from_secret_key ei) in
        rw (
          take_field 33 (point ei) tag size,
          drop_field 33 (point ei) tag size,
          laws.from_slice-serialize (b.from_secret_key ei),
          p,
          e,
        )

    build_act_two_lem :
        (ck h tag : Bytes) (re : b.PublicKey)
        → let k = temp_key ck (ecdh er re) in
          let h' = mixed h (point er) in
          Seals k 0 h' [] tag
          → length tag ≡ 16
          → build_act_two b c ecdh (responder_at responder_start ck h none (some re) none) ≡ (
            ok (0 ∷ (point er ++ tag)),
            responder_at responder_awaiting_act_three
                (next_ck ck (ecdh er re))
                (mixed h' tag)
                none
                (some re)
                (some k),
          )
    unfolding build_act_two encrypt_with_ad
    build_act_two_lem ck h tag re e len = rw (e, copy_lem {E = NoiseError} 16 tag len)

    process_act_two_lem :
        (ck h tag ee : Bytes)
        → ecdh ei (b.from_secret_key er) ≡ ee
        → let k = temp_key ck ee in
          let h' = mixed h (point er) in
          Unseals k 0 h' tag []
          → process_act_two b c ecdh
              (0 ∷ (point er ++ tag))
              (initiator_at initiator_awaiting_act_two ck h none none)
            ≡ build_act_three b c ecdh (
                initiator_at initiator_awaiting_act_two
                  (next_ck ck ee)
                  (mixed h' tag)
                  (some (b.from_secret_key er))
                  (some k))
    unfolding process_act_two decrypt_with_ad
    process_act_two_lem ck h tag ee p e =
        let size = laws.length-serialize (b.from_secret_key er) in
        rw (
          take_field 33 (point er) tag size,
          drop_field 33 (point er) tag size,
          laws.from_slice-serialize (b.from_secret_key er),
          p,
          e,
        )

    build_act_three_lem :
        (ck h sealed tag k : Bytes) (re : b.PublicKey)
        → let k3 = temp_key ck (ecdh si re) in
          let h' = mixed h sealed in
          Seals k 1 h (point si) sealed
          → length sealed ≡ 49
          → Seals k3 0 h' [] tag
          → length tag ≡ 16
          → build_act_three b c ecdh
              (initiator_at initiator_awaiting_act_two ck h (some re) (some k))
            ≡ (
              ok (0 ∷ (sealed ++ tag)),
              initiator_at complete (next_ck ck (ecdh si re)) h' (some re) (some k),
            )
    unfolding build_act_three encrypt_with_ad
    build_act_three_lem ck h sealed tag k re e len f len' =
        rw (e, f, copy_lem {E = NoiseError} 49 sealed len, copy_lem {E = NoiseError} 16 tag len')

    process_act_three_lem :
        (ck h sealed tag k se : Bytes) (re : b.PublicKey)
        → ecdh er (b.from_secret_key si) ≡ se
        → let k3 = temp_key ck se in
          let h' = mixed h sealed in
          Unseals k 1 h sealed (point si)
          → length sealed ≡ 49
          → Unseals k3 0 h' tag []
          → process_act_three b c ecdh
              (0 ∷ (sealed ++ tag))
              (responder_at responder_awaiting_act_three ck h none (some re) (some k))
            ≡ (
              ok (b.from_secret_key si),
              responder_at complete
                  (next_ck ck se)
                  h'
                  (some (b.from_secret_key si))
                  (some re)
                  (some k),
            )
    unfolding process_act_three decrypt_with_ad
    process_act_three_lem ck h sealed tag k se re p e len f = rw (
      take_field 49 sealed tag len,
      drop_field 49 sealed tag len,
      e,
      laws.from_slice-serialize (b.from_secret_key si),
      p,
      f,
    )

-- A whole handshake: the four calls succeed one after the other, the responder learns the
-- initiator's key, and each party's sending key is the other's receiving key.
pub record Agreed (b : Bitcoin) (c : Crypto) (ecdh : b.SecretKey → b.PublicKey → Bytes)
    (si ei sr er : b.SecretKey) : Type 0 where
  pub act_one : Bytes
  pub act_two : Bytes
  pub act_three : Bytes
  pub waiting : NoiseHandshake b
  pub answering : NoiseHandshake b
  pub initiator_end : NoiseHandshake b
  pub responder_end : NoiseHandshake b
  pub sk : Bytes
  pub rk : Bytes
  pub first :
      get_act_one b c ecdh (new_initiator b c ecdh si ei (b.from_secret_key sr))
      ≡ (ok act_one, waiting)
  pub second :
      process_act_one b c ecdh act_one (new_responder b c ecdh sr er) ≡ (ok act_two, answering)
  pub third : process_act_two b c ecdh act_two waiting ≡ (ok act_three, initiator_end)
  pub fourth :
      process_act_three b c ecdh act_three answering ≡ (ok (b.from_secret_key si), responder_end)
  pub initiator_keys : get_final_keys b c ecdh initiator_end ≡ ok (sk, rk)
  pub responder_keys : get_final_keys b c ecdh responder_end ≡ ok (rk, sk)
  pub same_ck : initiator_end.ck ≡ responder_end.ck
  pub size_two : length act_two ≡ 50

-- Under the laws of the crates, for any four secrets: if both parties compute the same shared points: the four calls of a handshake
-- succeed one after the other, the responder learns the static key of the initiator, and the sending
-- key of each party is the receiving key of the other.
pub handshake_agrees :
    (b : Bitcoin) (c : Crypto) (ecdh : b.SecretKey → b.PublicKey → Bytes)
    → BitcoinLaws b
    → CryptoLaws c
    → ((x y : b.SecretKey) → ecdh x (b.from_secret_key y) ≡ ecdh y (b.from_secret_key x))
    → (si ei sr er : b.SecretKey) → Agreed b c ecdh si ei sr er
unfolding new_initiator new_responder get_final_keys
handshake_agrees b c ecdh laws claws symmetric si ei sr er =
    let pub_of = b.from_secret_key in
    let (ck, h) = initialize_state b c ecdh (pub_of sr) in
    let es = ecdh ei (pub_of sr) in
    let h₁ = mixed b c ecdh h (point b c ecdh ei) in
    let (tag₁, e₁, len₁, d₁) =
      claws.encrypt_sound (temp_key b c ecdh ck es) (encode_nonce 0) h₁ [] (omega arith) in
    let ck₁ = next_ck b c ecdh ck es in
    let h₂ = mixed b c ecdh h₁ tag₁ in
    let ee = ecdh er (pub_of ei) in
    let h₃ = mixed b c ecdh h₂ (point b c ecdh er) in
    let k₂ = temp_key b c ecdh ck₁ ee in
    let (tag₂, e₂, len₂, d₂) = claws.encrypt_sound k₂ (encode_nonce 0) h₃ [] (omega arith) in
    let ck₂ = next_ck b c ecdh ck₁ ee in
    let h₄ = mixed b c ecdh h₃ tag₂ in
    let size = laws.length-serialize (pub_of si) in
    let (sealed, e₃, len₃, d₃) =
      claws.encrypt_sound k₂ (encode_nonce 1) h₄ (point b c ecdh si) (omega arith) in
    let h₅ = mixed b c ecdh h₄ sealed in
    let se = ecdh si (pub_of er) in
    let (tag₃, e₄, len₄, d₄) =
      claws.encrypt_sound (temp_key b c ecdh ck₂ se) (encode_nonce 0) h₅ [] (omega arith) in
    record {
      act_one = _;
      act_two = _;
      act_three = _;
      waiting = _;
      answering = _;
      initiator_end = _;
      responder_end = _;
      sk = _;
      rk = _;
      first = get_act_one_lem b c ecdh laws si ei sr er ck h tag₁ e₁ (omega arith);
      second =
          process_act_one_lem b c ecdh laws si ei sr er ck h tag₁ es (symmetric sr ei) d₁
          ∙ build_act_two_lem b c ecdh laws si ei sr er ck₁ h₂ tag₂ (pub_of ei) e₂ (omega arith);
      third =
          process_act_two_lem b c ecdh laws si ei sr er ck₁ h₂ tag₂ ee (symmetric ei er) d₂
          ∙ build_act_three_lem b c ecdh laws si ei sr er ck₂ h₄ sealed tag₃ k₂ (pub_of er) e₃
              (omega arith) e₄ (omega arith);
      fourth =
          process_act_three_lem b c ecdh laws si ei sr er ck₂ h₄ sealed tag₃ k₂ se (pub_of ei)
            (symmetric er si) d₃ (omega arith) d₄;
      initiator_keys = refl;
      responder_keys = refl;
      same_ck = refl;
      size_two =
          omega (arith, length-append (point b c ecdh er) tag₂, laws.length-serialize (pub_of er));
    }
