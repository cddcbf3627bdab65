-- ===== src/Bolt/ReplyChannelRange/ShortIds.antt =====
-- The short channel IDs inside a `reply_channel_range`.
use ln_gossip_sim.Base.{
  ℕ, ◌+◌, ◌*◌, ◌≡◌, refl, sym, ap, arith, ◌==◌, ==→eq, Bool, List, [], ◌∷◌, ◌++◌, append-nil, map,
  length, All, Bytes, AllBytes, ok, err, Ensures, holds, rejected, Ensures-if, Ensures-bind,
  Ensures-weaken,
}
use ln_gossip_sim.Base.Words.{from_be_bytes, from_be_bytes-lt}
use ln_gossip_sim.Base.Chunks.{
  as_chunks, concat, AllChunks, as_chunks-concat, as_chunks-AllChunks, concat-as_chunks,
}
use ln_gossip_sim.Bolt.Types.{truncated}
use ln_gossip_sim.Bolt.Wire.{u8, u64}
use ln_gossip_sim.Bolt.Wire.Arrays.{
  Fits, uint-IsLawful, uint-IsArray, from_be_bytes-write, write-from_be_bytes,
}
use ln_gossip_sim.Bolt.ReplyChannelRange.{
  ReplyChannelRange, write_scids, from_scids, parse_scids, short_channel_ids,
}

write_scids-concat : (scids : List ℕ) → write_scids scids ≡ concat (map u64.write scids)
unfolding write_scids concat
write_scids-concat [] = refl
write_scids-concat (s ∷ ss) = ap (λ t. u64.write s ++ t) (write_scids-concat ss)

written-AllChunks : (scids : List ℕ) → AllChunks 8 (map u64.write scids)
written-AllChunks [] = tt
written-AllChunks (s ∷ ss) = (uint-IsArray 8 s, written-AllChunks ss)

read_written :
    (scids : List ℕ) → All (Fits 8) scids → map from_be_bytes (map u64.write scids) ≡ scids
read_written [] h = refl
read_written (s ∷ ss) (h, hs) = rw (from_be_bytes-write 8 s h, read_written ss hs)

parse_scids-write :
    (scids : List ℕ) → All (Fits 8) scids → parse_scids (write_scids scids) ≡ ok scids
unfolding parse_scids
parse_scids-write scids h =
    let split = as_chunks-concat 8 (map u64.write scids) (omega arith) (written-AllChunks scids) in
    rw (write_scids-concat scids)
      (rw (split, parse_scids) (rw split (ap ok (read_written scids h))))

-- The IDs of 64 bits that a reply was built from are read back from it.
pub short_channel_ids-from_scids :
    (chain_hash : Bytes) (first_blocknum number_of_blocks : ℕ) (sync_complete : Bool)
    (scids : List ℕ)
    → All (Fits 8) scids
    → short_channel_ids (from_scids chain_hash first_blocknum number_of_blocks sync_complete scids)
      ≡ ok scids
unfolding short_channel_ids from_scids
short_channel_ids-from_scids chain_hash first_blocknum number_of_blocks sync_complete scids h =
    rw ((uint-IsLawful 1).read-write 0 (write_scids scids) (omega arith))
      (parse_scids-write scids h)

rewritten :
    (chunks : List Bytes)
    → AllChunks 8 chunks
    → write_scids (map from_be_bytes chunks) ≡ concat chunks
unfolding write_scids concat
rewritten [] h = refl
rewritten (c ∷ cs) (h, hs) = rw (write-from_be_bytes 8 c h, rewritten cs hs)

parsed-Fits : (chunks : List Bytes) → AllChunks 8 chunks → All (Fits 8) (map from_be_bytes chunks)
parsed-Fits [] h = tt
parsed-Fits (c ∷ cs) (h, hs) = (from_be_bytes-lt 8 c h.1 h.0, parsed-Fits cs hs)

parse_scids-Ensures :
    (cursor : Bytes)
    → AllBytes cursor
    → Ensures (λ scids. All (Fits 8) scids × (cursor ≡ write_scids scids)) (parse_scids cursor)
unfolding parse_scids
parse_scids-Ensures cursor h =
    all_or_none (as_chunks 8 cursor).0 (as_chunks 8 cursor).1
      (as_chunks-AllChunks 8 cursor (omega arith) h) (concat-as_chunks 8 cursor)
  where
    all_or_none :
        (chunks : List Bytes) (remainder : Bytes)
        → AllChunks 8 chunks
        → concat chunks ++ remainder ≡ cursor
        → Ensures
            (λ scids. All (Fits 8) scids × (cursor ≡ write_scids scids))
            (elim remainder [
              | [] ↦ ok (map from_be_bytes chunks)
              | _ ∷ _ ↦ err (truncated ((length chunks + 1) * 8) (length cursor))
            ])
    all_or_none chunks [] v e =
        holds (parsed-Fits chunks v, rw (rewritten chunks v) (sym (rw append-nil at e)))
    all_or_none chunks (b ∷ bs) v e = rejected

-- Reading the IDs of any reply ends: in an error, or with IDs whose uncompressed encoding the
-- field is.
pub short_channel_ids-Ensures :
    (m : ReplyChannelRange)
    → AllBytes m.encoded_short_ids
    → Ensures
        (λ scids. All (Fits 8) scids × (m.encoded_short_ids ≡ u8.write 0 ++ write_scids scids))
        (short_channel_ids m)
unfolding short_channel_ids
short_channel_ids-Ensures m h =
    Ensures-bind ((uint-IsLawful 1).read-Ensures m.encoded_short_ids h) λ (t, cursor) p.
      Ensures-if (t == 0)
        (λ e.
          Ensures-weaken (parse_scids-Ensures cursor p.1)
            λ scids q. (q.0, rw (← q.1, ← ==→eq t 0 e) p.2))
        (λ _. rejected)
