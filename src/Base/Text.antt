-- ===== src/Base/Text.antt =====
-- Text as the list of its characters' code points: what the standard library's `str` methods do.
use Prim.Native.Nat.{ℕ}
use Prim.Native.Char.{code}
use Prim.Native.String.{String}
use mathlib.Core.Path.{◌≡◌, refl}
use mathlib.Core.Logic.{◌≢◌}
use mathlib.Core.Bool.{Bool, true, false, ◌&&◌, ◌||◌}
use mathlib.Core.List.{List, [], ◌∷◌, ◌++◌}
use native.Mathlib.Omega.{arith}
use ln_gossip_sim.Base.Lists.{All}
use ln_gossip_sim.Base.Tests.{leb, ◌==◌, if◌then◌else◌, ne→==, ==-refl}

abbrev pub Text : Type 0
Text = List ℕ

abbrev pub chars : String → Text
chars String.[] = []
chars (String.◌∷◌ c s) = code c ∷ chars s

-- `==` on texts.
unfoldable pub same : Text → Text → Bool
same [] [] = true
same [] (d ∷ t) = false
same (c ∷ s) [] = false
same (c ∷ s) (d ∷ t) = if c == d then same s t else false

-- A character in front of the first piece.
abbrev pub onto_first : ℕ → List Text → List Text
onto_first c [] = (c ∷ []) ∷ []
onto_first c (piece ∷ pieces) = (c ∷ piece) ∷ pieces

-- `s.split(sep)`: the pieces between the separators, one more than there are separators.
unfoldable pub split : ℕ → Text → List Text
split sep [] = [] ∷ []
split sep (c ∷ s) =
    let pieces = split sep s in if c == sep then [] ∷ pieces else onto_first c pieces

-- `char::is_whitespace`
unfoldable pub is_whitespace : ℕ → Bool
is_whitespace c =
    (leb 9 c && leb c 13)
    || c == 0x20
    || c == 0x85
    || c == 0xa0
    || c == 0x1680
    || (leb 0x2000 c && leb c 0x200a)
    || c == 0x2028
    || c == 0x2029
    || c == 0x202f
    || c == 0x205f
    || c == 0x3000

abbrev pub is_nil : Text → Bool
is_nil [] = true
is_nil (c ∷ s) = false

-- The pieces between single whitespace characters, empty ones included.
unfoldable pub whitespace_pieces : Text → List Text
whitespace_pieces [] = [] ∷ []
whitespace_pieces (c ∷ s) =
    let pieces = whitespace_pieces s in if is_whitespace c then [] ∷ pieces else onto_first c pieces

unfoldable pub non_empty : List Text → List Text
non_empty [] = []
non_empty (piece ∷ pieces) =
    let rest = non_empty pieces in if is_nil piece then rest else piece ∷ rest

-- `s.split_whitespace()`
unfoldable pub split_whitespace : Text → List Text
unfolding whitespace_pieces non_empty
split_whitespace s = non_empty (whitespace_pieces s)

pub same_refl : (s : Text) → same s s ≡ true
unfolding same
same_refl [] = refl
same_refl (c ∷ s) = rw (==-refl c, same_refl s)

pub same→eq : (s t : Text) → same s t ≡ true → s ≡ t
unfolding same
same→eq [] [] h = refl
same→eq [] (d ∷ t) h = cc
same→eq (c ∷ s) [] h = cc
same→eq (c ∷ s) (d ∷ t) h = ground (arith, same→eq s t)

-- A piece without the separator comes off whole.
pub split-piece :
    (sep : ℕ) (piece rest : Text)
    → All (λ c. c ≢ sep) piece
    → split sep (piece ++ sep ∷ rest) ≡ piece ∷ split sep rest
unfolding split
split-piece sep [] rest h = rw (==-refl sep)
split-piece sep (c ∷ piece) rest (h, hs) = rw (ne→== c sep h, split-piece sep piece rest hs)

pub split-last : (sep : ℕ) (piece : Text) → All (λ c. c ≢ sep) piece → split sep piece ≡ piece ∷ []
unfolding split
split-last sep [] h = refl
split-last sep (c ∷ piece) (h, hs) = rw (ne→== c sep h, split-last sep piece hs)

-- A word: characters, and none of them whitespace.
abbrev pub IsWord : Text → Type 0
IsWord [] = ⊥
IsWord (c ∷ s) = (is_whitespace c ≡ false) × All (λ c. is_whitespace c ≡ false) s
