-- ===== src/Bolt/Tlv/Add.antt =====
-- `TlvStream::add` and `get` of bolt/src/tlv.rs.
use ln_gossip_sim.Base.{
  ℕ, ◌^◌, ◌<◌, ◌≤◌, ◌≡◌, ◌≢◌, refl, arith, ne→==, inl, inr, Bool-cases, Option, none, some, List,
  [], ◌∷◌, leb, ◌==◌, if◌then◌else◌, length, get_elem?, Bytes, AllBytes, ok, panic,
}
use ln_gossip_sim.Bolt.Tlv.{TlvRecord, TlvStream, position, insert_at, add, find_value, get}
use ln_gossip_sim.Bolt.Tlv.Order.{Follows, IsStream}

-- The types are strictly increasing.
abbrev pub IsSorted : Option ℕ → List TlvRecord → Type 0
IsSorted last [] = Unit
IsSorted last (r ∷ rs) = Follows last r.tlv_type × IsSorted (some r.tlv_type) rs

-- Below the first type of a sorted list nothing is found.
find_value_below :
    (t prev : ℕ) (rs : List TlvRecord) → IsSorted (some prev) rs → t ≤ prev → find_value t rs ≡ none
unfolding find_value
find_value_below t prev [] s h = refl
find_value_below t prev (r ∷ rs) (lt, s) h = ground (arith, find_value_below t r.tlv_type rs s)

-- The record at the insertion point, if the type is taken, is the record of that type.
taken :
    (t : ℕ) (last : Option ℕ) (rs : List TlvRecord) (v : Bytes)
    → IsSorted last rs
    → find_value t rs ≡ some v
    → (r : TlvRecord) × (get_elem? rs (position t rs) ≡ some r) × (r.tlv_type ≡ t)
unfolding find_value position
taken t last [] v s h = cc
taken t last (r ∷ rs) v (f, s) h = elim (Bool-cases (leb t r.tlv_type)) [
  | inl le ↦ (r, rw le, ground (arith, find_value_below t r.tlv_type rs s))
  | inr gt ↦ let (r', e, q) = taken t (some r.tlv_type) rs v s (ground arith) in (r', rw gt e, q)
]

free :
    (t : ℕ) (rs : List TlvRecord)
    → find_value t rs ≡ none
    → (r : TlvRecord) → get_elem? rs (position t rs) ≡ some r
    → r.tlv_type ≢ t
unfolding find_value position
free t [] h r e = cc
free t (x ∷ xs) h r e = elim (Bool-cases (leb t x.tlv_type)) [
  | inl le ↦ ground arith
  | inr gt ↦ free t xs (ground arith) r (ground arith)
]

abbrev inserted : ℕ → Bytes → List TlvRecord → List TlvRecord
inserted t v rs = insert_at (position t rs) (record { tlv_type = t; value = v }) rs

inserted-IsSorted :
    (t : ℕ) (v : Bytes) (last : Option ℕ) (rs : List TlvRecord)
    → IsSorted last rs
    → Follows last t
    → find_value t rs ≡ none
    → IsSorted last (inserted t v rs)
unfolding find_value position insert_at
inserted-IsSorted t v last [] s f h = (f, tt)
inserted-IsSorted t v last (r ∷ rs) (fr, s) f h = elim (Bool-cases (leb t r.tlv_type)) [
  | inl le ↦ rw le (f, (ground arith, s))
  | inr gt ↦ rw gt (fr, inserted-IsSorted t v (some r.tlv_type) rs s (ground arith) (ground arith))
]

find_value-inserted :
    (t u : ℕ) (v : Bytes) (rs : List TlvRecord)
    → find_value t rs ≡ none
    → find_value u (inserted t v rs) ≡ (if t == u then some v else find_value u rs)
unfolding find_value position insert_at
find_value-inserted t u v [] h = refl
find_value-inserted t u v (r ∷ rs) h = elim (Bool-cases (leb t r.tlv_type)) [
  | inl le ↦ rw le refl
  | inr gt ↦ rw gt (ground (arith, find_value-inserted t u v rs (ground arith)))
]

-- The test at the insertion point lets a new type through.
new_place {ℓ} :
    {E : Type ℓ} (t : ℕ) (v : Bytes) (rs : List TlvRecord)
    → find_value t rs ≡ none
    → (found : Option TlvRecord) → get_elem? rs (position t rs) ≡ found
    → add {E = E} (record { records = rs }) t v ≡ ok (record { records = inserted t v rs })
unfolding add
new_place t v rs h none e = rw (e, add)
new_place t v rs h (some r) e =
    let other = ne→== r.tlv_type t (free t rs h r e) in rw (e, add) (rw other)

-- Adding a type that a sorted stream does not have succeeds, keeps the order, and changes what is found
-- under that type alone.
pub add_fresh {ℓ} :
    {E : Type ℓ} (s : TlvStream) (t : ℕ) (v : Bytes)
    → IsSorted none s.records
    → get s t ≡ none
    → (s' : TlvStream) × (add {E = E} s t v ≡ ok s')
      × IsSorted none s'.records
      × ((u : ℕ) → get s' u ≡ (if t == u then some v else get s u))
unfolding add get
add_fresh s t v sorted h = (
  record { records = inserted t v s.records },
  new_place t v s.records h (get_elem? s.records (position t s.records)) refl,
  inserted-IsSorted t v none s.records sorted tt h,
  λ u. find_value-inserted t u v s.records h,
)

-- Adding a type that a sorted stream has panics.
pub add_duplicate {ℓ} :
    {E : Type ℓ} (s : TlvStream) (t : ℕ) (v w : Bytes)
    → IsSorted none s.records
    → get s t ≡ some w
    → add {E = E} s t v ≡ panic
unfolding add get
add_duplicate s t v w sorted h =
    let (r, e, q) = taken t none s.records w sorted h in rw (e, add) (ground arith)

pub IsStream→IsSorted :
    (last : Option ℕ) (known : List ℕ) (rs : List TlvRecord)
    → IsStream last known rs
    → IsSorted last rs
IsStream→IsSorted last known [] v = tt
IsStream→IsSorted last known (r ∷ rs) (f, v, vs) =
    (f, IsStream→IsSorted (some r.tlv_type) known rs vs)

find_value-IsValue :
    (last : Option ℕ) (known : List ℕ) (rs : List TlvRecord) (t : ℕ) (v : Bytes)
    → IsStream last known rs
    → find_value t rs ≡ some v
    → (length v < 2 ^ 64) × AllBytes v
unfolding find_value
find_value-IsValue last known [] t v h e = cc
find_value-IsValue last known (r ∷ rs) t v (f, h, hs) e = elim (Bool-cases (r.tlv_type == t)) [
  | inl same ↦ let found : r.value ≡ v = ground arith in rw (← found) (h.1, h.2)
  | inr other ↦ find_value-IsValue (some r.tlv_type) known rs t v hs (ground arith)
]

-- What is found in a well-formed stream fits the wire.
pub get-IsValue :
    (known : List ℕ) (s : TlvStream) (t : ℕ) (v : Bytes)
    → IsStream none known s.records
    → get s t ≡ some v
    → (length v < 2 ^ 64) × AllBytes v
unfolding get
get-IsValue known s t v h e = find_value-IsValue none known s.records t v h e
