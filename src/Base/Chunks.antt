-- ===== src/Base/Chunks.antt =====
-- The standard library's `as_chunks` on a byte slice.
use Prim.Native.Nat.{ℕ, zero, suc, ◌+◌, ◌*◌, ◌/◌, ◌≤◌, ◌<◌}
use Prim.Native.Nat.mul
use Prim.Native.Nat.add
use mathlib.Core.Path.{◌≡◌, refl, sym, ap, ◌∙◌}
use mathlib.Core.List.{List, [], ◌∷◌, ◌++◌, append_assoc}
use native.Mathlib.Omega.{arith}
use ln_gossip_sim.Base.Lists.{
  length, take, drop, length-append, take-append, drop-append, length-take, length-drop,
  take-append-drop, All, All-take, All-drop, All-append, Bytes, AllBytes,
}

-- The first `k` chunks of `n` bytes.
unfoldable pub chunks_of : ℕ → ℕ → Bytes → List Bytes
chunks_of zero n bytes = []
chunks_of (suc k) n bytes = take n bytes ∷ chunks_of k n (drop n bytes)

-- All chunks of `n` bytes, and the bytes left over.
unfoldable pub as_chunks : ℕ → Bytes → List Bytes × Bytes
unfolding chunks_of
as_chunks n bytes = let k = length bytes / n in (chunks_of k n bytes, drop (k * n) bytes)

-- The chunks one behind the other.
unfoldable pub concat : List Bytes → Bytes
concat [] = []
concat (x ∷ xs) = x ++ concat xs

abbrev pub AllChunks : ℕ → List Bytes → Type 0
AllChunks n = All (λ (c : Bytes). (length c ≡ n) × AllBytes c)

pub length-concat : (n : ℕ) (xs : List Bytes) → AllChunks n xs → length (concat xs) ≡ length xs * n
unfolding concat
length-concat n [] h = omega arith
length-concat n (x ∷ xs) (h, hs) =
    omega (arith, length-append x (concat xs), length-concat n xs hs, h.0)

pub concat-AllBytes : (n : ℕ) (xs : List Bytes) → AllChunks n xs → AllBytes (concat xs)
unfolding concat
concat-AllBytes n [] h = tt
concat-AllBytes n (x ∷ xs) (h, hs) = All-append _ x (concat xs) h.1 (concat-AllBytes n xs hs)

-- Chunks one behind the other are found again.
pub chunks_of-concat :
    (n : ℕ) (xs : List Bytes) → AllChunks n xs → chunks_of (length xs) n (concat xs) ≡ xs
unfolding chunks_of concat
chunks_of-concat n [] h = refl
chunks_of-concat n (x ∷ xs) (h, hs) =
    rw (← h.0, take-append x (concat xs), drop-append x (concat xs), h.0, chunks_of-concat n xs hs)

pub chunks_of-AllChunks :
    (k n : ℕ) (bytes : Bytes)
    → AllBytes bytes
    → k * n ≤ length bytes
    → AllChunks n (chunks_of k n bytes)
unfolding chunks_of
chunks_of-AllChunks zero n bytes h le = tt
chunks_of-AllChunks (suc k) n bytes h le = (
  (length-take n bytes (omega arith), All-take _ n bytes h),
  chunks_of-AllChunks k n (drop n bytes) (All-drop _ n bytes h)
      (omega (arith, length-drop n bytes)),
)

pub length-chunks_of : (k n : ℕ) (bytes : Bytes) → length (chunks_of k n bytes) ≡ k
unfolding chunks_of
length-chunks_of zero n bytes = refl
length-chunks_of (suc k) n bytes = ap suc (length-chunks_of k n (drop n bytes))

pub drop_all : (n : ℕ) (bytes : Bytes) → length bytes ≤ n → drop n bytes ≡ []
drop_all zero [] h = refl
drop_all zero (b ∷ bs) h = absurd (omega arith)
drop_all (suc n) [] h = refl
drop_all (suc n) (b ∷ bs) h = drop_all n bs (omega arith)

mul_div : (k n : ℕ) → 0 < n → k * n / n ≡ k
mul_div k n h = grind arith

div_mul_le : (a n : ℕ) → 0 < n → a / n * n ≤ a
div_mul_le a n h = grind arith

-- Equal chunks one behind the other split into those chunks, with nothing left over.
pub as_chunks-concat :
    (n : ℕ) (xs : List Bytes) → 0 < n → AllChunks n xs → as_chunks n (concat xs) ≡ (xs, [])
unfolding as_chunks
as_chunks-concat n xs pos h =
    rw (length-concat n xs h, mul_div (length xs) n pos, chunks_of-concat n xs h)
      (rw (drop_all (length xs * n) (concat xs) (omega (arith, length-concat n xs h))))

pub as_chunks-AllChunks :
    (n : ℕ) (bytes : Bytes) → 0 < n → AllBytes bytes → AllChunks n (as_chunks n bytes).0
unfolding as_chunks
as_chunks-AllChunks n bytes pos h =
    chunks_of-AllChunks (length bytes / n) n bytes h (div_mul_le (length bytes) n pos)

pub length-as_chunks-le :
    (n : ℕ) (bytes : Bytes) → 0 < n → length (as_chunks n bytes).0 * n ≤ length bytes
unfolding as_chunks
length-as_chunks-le n bytes pos =
    rw (length-chunks_of (length bytes / n) n bytes) (div_mul_le (length bytes) n pos)

drop-drop : (n m : ℕ) (bytes : Bytes) → drop m (drop n bytes) ≡ drop (n + m) bytes
drop-drop zero m bytes = rw (add.zero m)
drop-drop (suc n) m [] = drop_all m [] (omega arith) ∙ sym (drop_all (suc n + m) [] (omega arith))
drop-drop (suc n) m (b ∷ bs) = rw (add.suc n m) (drop-drop n m bs)

concat-chunks_of :
    (k n : ℕ) (bytes : Bytes) → concat (chunks_of k n bytes) ++ drop (k * n) bytes ≡ bytes
unfolding concat chunks_of
concat-chunks_of zero n bytes = rw (mul.zero n)
concat-chunks_of (suc k) n bytes =
    let rest = drop-drop n (k * n) bytes in
    let size : suc k * n ≡ n + k * n = omega arith in
    rw (size, ← rest, append_assoc)
      (ap (λ t. take n bytes ++ t) (concat-chunks_of k n (drop n bytes))
        ∙ sym (take-append-drop n bytes))

-- Nothing is lost: the chunks and the bytes left over make up the slice.
pub concat-as_chunks :
    (n : ℕ) (bytes : Bytes) → concat (as_chunks n bytes).0 ++ (as_chunks n bytes).1 ≡ bytes
unfolding as_chunks
concat-as_chunks n bytes = concat-chunks_of (length bytes / n) n bytes
