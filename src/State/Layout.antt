-- ===== src/State/Layout.antt =====
-- The machine against the layout of an archive: header blocks, data, padding, and the end.
use tario.Prelude.{
  ℕ, ◌+◌, ◌-◌, ◌%◌, ◌≤◌, ◌≡◌, refl, sym, ap, ◌∙◌, inl, inr, Bool, true, false, ◌||◌, Option, List,
  [], ◌++◌, append-nil, arith, if◌then◌else◌, Bool-cases, length, take, drop, is_empty, all_zero,
  length-append, drop_all, take-append_self, drop-append_self, is_empty-some,
}
use tario.Io.Error.{of_state, expecting_empty_block}
use tario.Io.Result.{Result, ok, err}
use tario.Block.{Header, Tar, block_size}
use tario.State.{
  State, expecting_header, receiving_header, received_header, receiving_data, received_data,
  aligning_data, aligned_data, receiving_eof, received_eof, next, entry_size, contains, take_until,
  stops, advance, next_multiple_of_block, u64_size,
}
use tario.State.Chunks.{is_empty-append}
use tario.State.Next.{shift}
use tario.State.Until.{take_until-step, shift-shift, shift-zero}

-- The bytes that fill up the last block of `n` bytes of data.
abbrev pub padding : ℕ → ℕ
padding n = (block_size - n % block_size) % block_size

or_true : (b : Bool) → (b || true) ≡ true
or_true true = refl
or_true false = refl

module _ (tar : Tar) (hdr : Option Header) where
  -- The run as a function of the state and of the bytes alone.
  abbrev pub scan : State → List ℕ → Result (State × ℕ)
  scan s buf = take_until tar s stops buf hdr

  -- One transition of a run that goes on, and one that ends it.
  moves :
      (s t : State) (n : ℕ) (xs ys : List ℕ)
      → next tar s (xs ++ ys) hdr ≡ ok (t, n)
      → n ≡ length xs
      → contains stops t ≡ false
      → is_empty ys ≡ false
      → scan s (xs ++ ys) ≡ shift n (scan t ys)
  moves s t n xs ys e len going more =
      let rest : drop n (xs ++ ys) ≡ ys = rw len (drop-append_self xs ys) in
      rw (take_until-step tar hdr stops s (xs ++ ys), e, rest, going, more)

  pub ends :
      (s t : State) (n : ℕ) (buf : List ℕ)
      → next tar s buf hdr ≡ ok (t, n)
      → (contains stops t || is_empty (drop n buf)) ≡ true
      → scan s buf ≡ ok (t, n)
  ends s t n buf e done = rw (take_until-step tar hdr stops s buf, e, done)

  -- A whole block at the front of the buffer, as a read of 512 bytes sees it.
  advance_block :
      (blk rest : List ℕ) → length blk ≡ block_size → advance (blk ++ rest) block_size ≡ block_size
  advance_block blk rest len = omega (arith, length-append blk rest)

  take_block :
      (blk rest : List ℕ)
      → length blk ≡ block_size
      → all_zero (take (advance (blk ++ rest) block_size) (blk ++ rest)) ≡ all_zero blk
  take_block blk rest len =
      rw (advance_block blk rest len, ← len) (ap all_zero (take-append_self blk rest))

  pub next_block :
      (blk rest : List ℕ)
      → length blk ≡ block_size
      → next tar (receiving_header block_size true) (blk ++ rest) hdr
        ≡ ok (if all_zero blk then receiving_eof block_size else received_header, block_size)
  unfolding next
  next_block blk rest len = ground (arith, advance_block blk rest len, take_block blk rest len)

  -- From the start of a block, with bytes behind it, a whole block of 512 is taken: one that is not all
  -- zero is a header, at which the run stops, and an empty one is the first of the two that end the
  -- archive, from which the run goes on.
  pub scan_block :
      (blk rest : List ℕ)
      → length blk ≡ block_size
      → is_empty rest ≡ false
      → scan expecting_header (blk ++ rest) ≡ (
          if all_zero blk
          then shift block_size (scan (receiving_eof block_size) rest)
          else ok (received_header, block_size))
  unfolding next contains
  scan_block blk rest len more =
      moves expecting_header (receiving_header block_size true) 0 [] (blk ++ rest) refl refl refl
        (is_empty-append blk rest more)
      ∙ (shift-zero (scan (receiving_header block_size true) (blk ++ rest))
          ∙ elim (Bool-cases (all_zero blk)) [
            | inl z ↦ rw z (
                moves (receiving_header block_size true) (receiving_eof block_size) block_size blk
                  rest (next_block blk rest len ∙ rw z) (sym len) refl more)
            | inr z ↦ rw z (
                ends (receiving_header block_size true) received_header block_size (blk ++ rest)
                  (next_block blk rest len ∙ rw z) refl)
          ])

  -- The same block with nothing behind it, from within the header.
  pub scan_header_block :
      (blk : List ℕ)
      → length blk ≡ block_size
      → scan (receiving_header block_size true) blk
        ≡ ok (if all_zero blk then receiving_eof block_size else received_header, length blk)
  unfolding contains next
  scan_header_block blk len =
      let rest : drop block_size blk ≡ [] = drop_all block_size blk (omega arith) in
      let first : next tar (receiving_header block_size true) blk hdr
          ≡ ok (if all_zero blk then receiving_eof block_size else received_header, block_size) =
        ap (λ (xs : List ℕ). next tar (receiving_header block_size true) xs hdr)
          (sym (append-nil blk))
        ∙ next_block blk [] len in
      ends (receiving_header block_size true)
        (if all_zero blk then receiving_eof block_size else received_header) block_size blk first
        (rw rest (
          or_true
            (contains stops (if all_zero blk then receiving_eof block_size else received_header))))
      ∙ ap (λ (n : ℕ). ok (if all_zero blk then receiving_eof block_size else received_header, n))
          (sym len)

  -- And from before it.
  pub scan_only_block :
      (blk : List ℕ)
      → length blk ≡ block_size
      → scan expecting_header blk
        ≡ ok (if all_zero blk then receiving_eof block_size else received_header, length blk)
  unfolding contains next
  scan_only_block blk len =
      let some_bytes : is_empty blk ≡ false = is_empty-some blk (omega arith) in
      moves expecting_header (receiving_header block_size true) 0 [] blk refl refl refl some_bytes
      ∙ (shift-zero (scan (receiving_header block_size true) blk) ∙ scan_header_block blk len)

  -- The second block of 512 of the end is taken whole too, and ends the archive; it is refused unless
  -- it is empty.
  pub scan_eof :
      (blk rest : List ℕ)
      → length blk ≡ block_size
      → scan (receiving_eof block_size) (blk ++ rest) ≡ (
          if all_zero blk
          then ok (received_eof, block_size)
          else err (of_state expecting_empty_block))
  unfolding next contains
  scan_eof blk rest len = elim (Bool-cases (all_zero blk)) [
    | inl z ↦ rw z (
        ends (receiving_eof block_size) received_eof block_size (blk ++ rest)
          (ground (arith, advance_block blk rest len, take_block blk rest len)) refl)
    | inr z ↦ rw z (
        rw (
          take_until-step tar hdr stops (receiving_eof block_size) (blk ++ rest),
          take_block blk rest len,
          z,
        ))
  ]

  pub next_eof_block :
      (blk rest : List ℕ)
      → length blk ≡ block_size
      → all_zero blk ≡ true
      → next tar (receiving_eof block_size) (blk ++ rest) hdr ≡ ok (received_eof, block_size)
  unfolding next
  next_eof_block blk rest len z =
      ground (arith, advance_block blk rest len, take_block blk rest len)

  pub padding_lem :
      (n : ℕ) → n + block_size ≤ u64_size → next_multiple_of_block n ≡ ok (n + padding n)
  unfolding next_multiple_of_block
  padding_lem n small = ground arith

  pub next_pad :
      (n : ℕ) (buf : List ℕ)
      → entry_size tar hdr ≡ ok n
      → n + block_size ≤ u64_size
      → next tar received_data buf hdr ≡ ok (aligning_data (padding n), 0)
  unfolding next
  next_pad n buf sized small = rw (sized, padding_lem n small) (ground arith)

  -- After a header that states a size of at most 2^64 - 512, the data of the entry and the bytes that
  -- fill up its last block are passed over, whatever they are, and the run goes on at the next block,
  -- if there are bytes of it.
  pub scan_entry :
      (body pad rest : List ℕ)
      → entry_size tar hdr ≡ ok (length body)
      → length body + block_size ≤ u64_size
      → length pad ≡ padding (length body)
      → is_empty rest ≡ false
      → scan received_header (body ++ (pad ++ rest))
        ≡ shift (length body + length pad) (scan expecting_header rest)
  unfolding next contains
  scan_entry body pad rest sized small len more =
      let tail : is_empty (pad ++ rest) ≡ false = is_empty-append pad rest more in
      moves received_header (receiving_data (length body)) 0 [] (body ++ (pad ++ rest)) (rw sized)
        refl refl (is_empty-append body (pad ++ rest) tail)
      ∙ (shift-zero (scan (receiving_data (length body)) (body ++ (pad ++ rest)))
          ∙ (moves (receiving_data (length body)) received_data (length body) body (pad ++ rest)
                (ground (arith, length-append body (pad ++ rest))) refl refl tail
              ∙ (ap (shift (length body)) (
                    moves received_data (aligning_data (length pad)) 0 [] (pad ++ rest)
                      (rw len (next_pad (length body) (pad ++ rest) sized small)) refl refl tail
                    ∙ (shift-zero (scan (aligning_data (length pad)) (pad ++ rest))
                        ∙ (moves (aligning_data (length pad)) aligned_data (length pad) pad rest
                              (ground (arith, length-append pad rest)) refl refl more
                            ∙ ap (shift (length pad)) (
                                moves aligned_data expecting_header 0 [] rest refl refl refl more
                                ∙ shift-zero (scan expecting_header rest)))))
                  ∙ shift-shift (length body) (length pad) (scan expecting_header rest))))
