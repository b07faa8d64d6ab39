-- ===== src/State/Stream.antt =====
-- The machine from one header to the next, and from the last entry to the end of the archive.
use tario.Prelude.{
  is_empty-some, ℕ, ◌+◌, ◌≤◌, ◌<◌, ◌≡◌, refl, ap, ◌∙◌, true, false, Option, List, [], ◌∷◌, ◌++◌,
  arith, length, is_empty, concat, all_zero,
}
use tario.Io.Result.{ok}
use tario.Block.{Header, Tar, block_size}
use tario.State.{
  expecting_header, received_header, receiving_eof, received_eof, entry_size, u64_size, take_slices,
}
use tario.State.Next.{shift}
use tario.State.Chunks.{take_slices-eq-take_until}
use tario.State.Layout.{padding, scan, scan_entry, scan_block, scan_eof}

nonempty : (xs ys : List ℕ) → 0 < length xs → is_empty (xs ++ ys) ≡ false
nonempty [] ys h = absurd (omega arith)
nonempty (x ∷ xs) ys h = refl

module _ (tar : Tar) (hdr : Option Header) (body pad : List ℕ)
    (sized : entry_size tar hdr ≡ ok (length body)) (small : length body + block_size ≤ u64_size)
    (filled : length pad ≡ padding (length body)) where
  -- From behind the header of an entry, whose size it states as at most 2^64 - 512, the slices of a
  -- stream with the data, the padding and a block that is not all zero, and some bytes behind it, lead
  -- exactly to the end of that block, as to the next header. The data may hold anything, also zeros or
  -- headers, and the slices may be cut anywhere.
  pub take_slices_next_header :
      (bufs : List (List ℕ)) (blk rest : List ℕ)
      → concat bufs ≡ body ++ (pad ++ (blk ++ rest))
      → length blk ≡ block_size
      → all_zero blk ≡ false
      → 0 < length rest
      → take_slices tar received_header bufs hdr
        ≡ ok (received_header, length body + length pad + block_size)
  take_slices_next_header bufs blk rest stream len not_zero more =
      let block : scan tar hdr expecting_header (blk ++ rest) ≡ ok (received_header, block_size) =
        scan_block tar hdr blk rest len (is_empty-some rest more) ∙ rw not_zero in
      take_slices-eq-take_until tar hdr received_header bufs
      ∙ (ap (scan tar hdr received_header) stream
          ∙ (scan_entry tar hdr body pad (blk ++ rest) sized small filled
                (nonempty blk rest (omega arith))
              ∙ ap (shift (length body + length pad)) block))

  -- From behind the header of the last entry, whose size it states as at most 2^64 - 512, the slices of
  -- a stream with the data, the padding and two empty blocks lead exactly to the end of the second
  -- block, and there to the end of the archive, whatever comes behind it and however they are cut.
  pub take_slices_end :
      (bufs : List (List ℕ)) (blk blk' rest : List ℕ)
      → concat bufs ≡ body ++ (pad ++ (blk ++ (blk' ++ rest)))
      → length blk ≡ block_size
      → all_zero blk ≡ true
      → length blk' ≡ block_size
      → all_zero blk' ≡ true
      → take_slices tar received_header bufs hdr
        ≡ ok (received_eof, length body + length pad + (block_size + block_size))
  take_slices_end bufs blk blk' rest stream len empty len' empty' =
      let last : scan tar hdr (receiving_eof block_size) (blk' ++ rest)
          ≡ ok (received_eof, block_size) =
        scan_eof tar hdr blk' rest len' ∙ rw empty' in
      let blocks : scan tar hdr expecting_header (blk ++ (blk' ++ rest))
          ≡ ok (received_eof, block_size + block_size) =
        scan_block tar hdr blk (blk' ++ rest) len (nonempty blk' rest (omega arith))
        ∙ (rw empty (ap (shift block_size) last)) in
      take_slices-eq-take_until tar hdr received_header bufs
      ∙ (ap (scan tar hdr received_header) stream
          ∙ (scan_entry tar hdr body pad (blk ++ (blk' ++ rest)) sized small filled
                (nonempty blk (blk' ++ rest) (omega arith))
              ∙ ap (shift (length body + length pad)) blocks))
