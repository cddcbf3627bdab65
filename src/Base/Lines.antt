-- ===== src/Base/Lines.antt =====
-- The lines of a text, as the readers of lines of the standard library and of tokio give them.
use Prim.Native.Nat.{ℕ}
use mathlib.Core.Path.{◌≡◌, refl, ap, ◌∙◌}
use mathlib.Core.Logic.{◌≢◌, inl, inr}
use mathlib.Core.List.{List, [], ◌∷◌, ◌++◌}
use ln_gossip_sim.Base.Lists.{All}
use ln_gossip_sim.Base.Tests.{◌==◌, if◌then◌else◌, ne→==, Bool-cases}
use ln_gossip_sim.Base.Text.{Text, is_nil, split, split-piece}

-- One carriage return at the end of a line that a newline ends is taken off.
unfoldable pub strip_return : Text → Text
strip_return [] = []
strip_return (c ∷ []) = if c == 13 then [] else c ∷ []
strip_return (c ∷ d ∷ s) = c ∷ strip_return (d ∷ s)

-- The pieces between the newlines; the last piece is a line if there is something in it.
unfoldable pub lines_of : List Text → List Text
unfolding strip_return
lines_of [] = []
lines_of (piece ∷ []) = if is_nil piece then [] else piece ∷ []
lines_of (piece ∷ next ∷ rest) = strip_return piece ∷ lines_of (next ∷ rest)

unfoldable pub lines : Text → List Text
unfolding lines_of
lines s = lines_of (split 10 s)

-- No character that ends a line.
abbrev pub IsLine : Text → Type 0
IsLine = All (λ c. (c ≢ 10) × (c ≢ 13))

strip_return_lem : (s : Text) → IsLine s → strip_return s ≡ s
unfolding strip_return
strip_return_lem [] h = refl
strip_return_lem (c ∷ []) (h, hs) = rw (ne→== c 13 h.1)
strip_return_lem (c ∷ d ∷ s) (h, hs) = ap (λ t. c ∷ t) (strip_return_lem (d ∷ s) hs)

no_newline : (s : Text) → IsLine s → All (λ c. c ≢ 10) s
no_newline [] h = tt
no_newline (c ∷ s) (h, hs) = (h.0, no_newline s hs)

split-cons :
    (sep : ℕ) (s : Text) → (piece : Text) × (rest : List Text) × (split sep s ≡ piece ∷ rest)
unfolding split
split-cons sep [] = ([], [], refl)
split-cons sep (c ∷ s) = elim (Bool-cases (c == sep)) [
  | inl e ↦ ([], split sep s, rw e)
  | inr e ↦ let (piece, rest, h) = split-cons sep s in (c ∷ piece, rest, rw (e, h))
]

-- A line comes off in front of a newline.
lines-cons : (l rest : Text) → IsLine l → lines (l ++ 10 ∷ rest) ≡ l ∷ lines rest
unfolding lines lines_of
lines-cons l rest h =
    let (piece, pieces, e) = split-cons 10 rest in
    rw (split-piece 10 l rest (no_newline l h), e) (rw (strip_return_lem l h))

-- One line, and the newline behind it.
pub lines-line : (l : Text) → IsLine l → lines (l ++ 10 ∷ []) ≡ l ∷ []
unfolding lines lines_of split
lines-line l h = lines-cons l [] h

-- Lines with a newline behind each.
unfoldable pub print_lines : List Text → Text
print_lines [] = []
print_lines (l ∷ rest) = l ++ 10 ∷ print_lines rest

pub lines-print_lines : (ls : List Text) → All IsLine ls → lines (print_lines ls) ≡ ls
unfolding print_lines
lines-print_lines [] h = unfold lines lines_of split in refl
lines-print_lines (l ∷ ls) (h, hs) =
    lines-cons l (print_lines ls) h ∙ ap (λ rest. l ∷ rest) (lines-print_lines ls hs)
