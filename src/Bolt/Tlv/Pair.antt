-- ===== src/Bolt/Tlv/Pair.antt =====
-- Streams of at most two records, which the encoders of the messages build.
use ln_gossip_sim.Base.{
  ℕ, ◌%◌, ◌^◌, ◌<◌, ◌≡◌, refl, arith, Option, none, some, List, [], ◌∷◌, length, Bytes, AllBytes,
  Outcome, ◌>>=◌,
}
use ln_gossip_sim.Bolt.Tlv.{
  TlvRecord, TlvStream, empty, add, add_option, get, encode, encode_records,
}
use ln_gossip_sim.Bolt.Tlv.Order.{OneOf, IsStream}
use ln_gossip_sim.Bolt.Tlv.Add.{get-IsValue}

-- A value that fits the wire, if there is one.
abbrev pub IsOptional : Option Bytes → Type 0
IsOptional none = Unit
IsOptional (some v) = (length v < 2 ^ 64) × AllBytes v

abbrev optional : ℕ → Option Bytes → List TlvRecord → List TlvRecord
optional t none rs = rs
optional t (some v) rs = record { tlv_type = t; value = v } ∷ rs

abbrev pub pair_of : ℕ → Option Bytes → ℕ → Option Bytes → TlvStream
pair_of t o u p = record { records = optional t o (optional u p []) }

-- No records, no bytes.
pub encode-empty : encode empty ≡ []
unfolding encode encode_records
encode-empty = refl

module _ (t u : ℕ) (lt : t < u) where
  -- Adding the two values in the order of their types does not panic.
  pub add_pair {ℓ} :
      {E : Type ℓ} {A : Type 0} (o p : Option Bytes) (k : TlvStream → Outcome E A)
      → (add_option empty t o >>= λ s. add_option s u p >>= k) ≡ k (pair_of t o u p)
  unfolding add
  add_pair none none k = refl
  add_pair none (some w) k = refl
  add_pair (some v) none k = refl
  add_pair (some v) (some w) k = ground arith

  pub get-first : (o p : Option Bytes) → get (pair_of t o u p) t ≡ o
  unfolding get
  get-first none none = refl
  get-first none (some w) = ground arith
  get-first (some v) p = ground arith

  pub get-second : (o p : Option Bytes) → get (pair_of t o u p) u ≡ p
  unfolding get
  get-second none none = refl
  get-second none (some w) = ground arith
  get-second (some v) none = ground arith
  get-second (some v) (some w) = ground arith

  pub pair-IsStream :
      (known : List ℕ) (o p : Option Bytes)
      → u < 2 ^ 64
      → (t % 2 ≡ 0 → OneOf t known)
      → (u % 2 ≡ 0 → OneOf u known)
      → IsOptional o
      → IsOptional p
      → IsStream none known (pair_of t o u p).records
  pair-IsStream known none none hu ht hu' ho hp = tt
  pair-IsStream known none (some w) hu ht hu' ho hp = (tt, (hu, hp.0, hp.1, hu'), tt)
  pair-IsStream known (some v) none hu ht hu' ho hp = (tt, (omega arith, ho.0, ho.1, ht), tt)
  pair-IsStream known (some v) (some w) hu ht hu' ho hp =
      (tt, (omega arith, ho.0, ho.1, ht), (lt, (hu, hp.0, hp.1, hu'), tt))

pub get-IsOptional :
    (known : List ℕ) (s : TlvStream) (t : ℕ) → IsStream none known s.records → IsOptional (get s t)
get-IsOptional known s t v = found (get s t) refl
  where
    found : (o : Option Bytes) → get s t ≡ o → IsOptional o
    found none e = tt
    found (some x) e = get-IsValue known s t x v e
