-- ===== src/GossipSim/Cli/Words.antt =====
-- Words with a space between them, as `str::split_whitespace` takes them apart.
use ln_gossip_sim.Base.{
  ℕ, ◌<◌, ◌^◌, ◌≡◌, refl, ap, arith, not, ◌&&◌, Bool-cases, inl, inr, Bool, true, false, [], ◌∷◌,
  ◌++◌, All,
}
use ln_gossip_sim.Base.Text.{
  Text, is_whitespace, is_nil, whitespace_pieces, non_empty, split_whitespace, IsWord,
}
use ln_gossip_sim.Base.Decimal.{to_text, is_digit, IsDecimal, to_text-IsDecimal}

pieces-space :
    (w rest : Text)
    → All (λ c. is_whitespace c ≡ false) w
    → whitespace_pieces (w ++ b' ' ∷ rest) ≡ w ∷ whitespace_pieces rest
unfolding whitespace_pieces is_whitespace
pieces-space [] rest h = refl
pieces-space (c ∷ w) rest (e, h) = rw (whitespace_pieces, e, pieces-space w rest h)

pieces-last : (w : Text) → All (λ c. is_whitespace c ≡ false) w → whitespace_pieces w ≡ w ∷ []
unfolding whitespace_pieces
pieces-last [] h = refl
pieces-last (c ∷ w) (e, h) = rw (e, pieces-last w h)

pub split_whitespace-word :
    (w rest : Text) → IsWord w → split_whitespace (w ++ b' ' ∷ rest) ≡ w ∷ split_whitespace rest
unfolding split_whitespace non_empty
split_whitespace-word [] rest h = absurd h
split_whitespace-word (c ∷ w) rest h = ap non_empty (pieces-space (c ∷ w) rest h)

pub split_whitespace-last : (w : Text) → IsWord w → split_whitespace w ≡ w ∷ []
unfolding split_whitespace non_empty
split_whitespace-last [] h = absurd h
split_whitespace-last (c ∷ w) h = ap non_empty (pieces-last (c ∷ w) h)

digit_no_space : (c : ℕ) → is_digit c ≡ true → is_whitespace c ≡ false
unfolding is_digit is_whitespace
digit_no_space c h = ground arith

digits_no_space : (s : Text) → All (λ c. is_digit c ≡ true) s → All (λ c. is_whitespace c ≡ false) s
digits_no_space [] h = tt
digits_no_space (c ∷ s) (e, h) = (digit_no_space c e, digits_no_space s h)

IsDecimal-IsWord : (s : Text) → IsDecimal s → IsWord s
IsDecimal-IsWord [] h = h
IsDecimal-IsWord (c ∷ s) (e, h) = (digit_no_space c e, digits_no_space s h)

pub to_text-IsWord : (n : ℕ) → n < 2 ^ 64 → IsWord (to_text n)
to_text-IsWord n h = IsDecimal-IsWord (to_text n) (to_text-IsDecimal n h)

-- The test for words, which a name of a command passes.
no_space : Text → Bool
unfolding is_whitespace
no_space [] = true
no_space (c ∷ s) = not (is_whitespace c) && no_space s

unfoldable pub is_word : Text → Bool
unfolding no_space
is_word s = not (is_nil s) && no_space s

no_space-All : (s : Text) → no_space s ≡ true → All (λ c. is_whitespace c ≡ false) s
unfolding no_space
no_space-All [] h = tt
no_space-All (c ∷ s) h = elim (Bool-cases (is_whitespace c)) [
  | inl e ↦ let f = rw (no_space, e) at h in cc
  | inr e ↦ let f = rw (no_space, e) at h in (e, no_space-All s f)
]

pub is_word-IsWord : (s : Text) → is_word s ≡ true → IsWord s
unfolding is_word
is_word-IsWord [] h = cc
is_word-IsWord (c ∷ s) h = no_space-All (c ∷ s) h
