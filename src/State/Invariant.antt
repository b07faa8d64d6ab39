-- ===== src/State/Invariant.antt =====
-- The place of the machine in the stream of bytes.
use tario.Prelude.{
  zero, suc, suc, length, drop, concat, length-drop, sym, ◌∙◌, inl, inr, ℕ, ◌+◌, ◌%◌, ◌≤◌, ◌<◌, ◌≡◌,
  Option, List, arith,
}
use tario.Io.Result.{ok}
use tario.State.Next.{next-le-length}
use tario.State.Until.{measure, next-measure, take_until-cases}
use tario.State.Chunks.{pos_of_drop, take_slices-eq-take_until}
use tario.Block.{Header, Tar, block_size}
use tario.State.{
  stops, take_until, take_slices, State, expecting_header, receiving_header, received_header,
  receiving_data, received_data, aligning_data, aligned_data, receiving_eof, received_eof, next,
  entry_size, next_multiple_of_block,
}

-- What `next_multiple_of_block` gives is the least multiple of 512 that is not below `n`.
pub next_multiple_of_block_lem :
    (n : ℕ) {m : ℕ}
    → next_multiple_of_block n ≡ ok m
    → (m % block_size ≡ 0) × (n ≤ m) × (m < n + block_size)
unfolding next_multiple_of_block
next_multiple_of_block_lem n e = ground arith

-- What a state says of the offset `o` in the stream at which the machine is in it, when the entry
-- that is being read holds `size` bytes: blocks begin at multiples of 512, and the bytes that a state
-- still waits for end where the part ends.
abbrev pub IsPlaced : ℕ → State → ℕ → Type 0
IsPlaced size expecting_header o = o % block_size ≡ 0
IsPlaced size (receiving_header rem _) o =
    (0 < rem) × (rem ≤ block_size) × ((o + rem) % block_size ≡ 0)
IsPlaced size received_header o = o % block_size ≡ 0
IsPlaced size (receiving_data rem) o = (rem ≤ size) × ((o + rem) % block_size ≡ size % block_size)
IsPlaced size received_data o = o % block_size ≡ size % block_size
IsPlaced size (aligning_data rem) o = (rem < block_size) × ((o + rem) % block_size ≡ 0)
IsPlaced size aligned_data o = o % block_size ≡ 0
IsPlaced size (receiving_eof rem) o = (0 < rem) × (rem ≤ block_size) × ((o + rem) % block_size ≡ 0)
IsPlaced size received_eof o = o % block_size ≡ 0

module _ (tar : Tar) (hdr : Option Header) (size : ℕ) (sized : entry_size tar hdr ≡ ok size) where
  -- A transition that succeeds keeps the place, from every state and on every buffer, where the header
  -- states the size of the entry.
  pub next-IsPlaced :
      (s : State) (buf : List ℕ) (o : ℕ) {t : State} {n : ℕ}
      → next tar s buf hdr ≡ ok (t, n)
      → IsPlaced size s o
      → IsPlaced size t (o + n)
  unfolding next
  next-IsPlaced expecting_header buf o e h = ground arith
  next-IsPlaced (receiving_header rem z) buf o e h = ground arith
  next-IsPlaced received_header buf o e h = ground arith
  next-IsPlaced (receiving_data rem) buf o e h = ground arith
  next-IsPlaced received_data buf o e h = ground (arith, next_multiple_of_block_lem size)
  next-IsPlaced (aligning_data rem) buf o e h = ground arith
  next-IsPlaced aligned_data buf o e h = ground arith
  next-IsPlaced (receiving_eof rem) buf o e h = ground arith
  next-IsPlaced received_eof buf o e h = ground arith

  until_below-IsPlaced :
      (k : ℕ) (stop : List State) (s : State) (buf : List ℕ) (o : ℕ) {t : State} {n : ℕ}
      → measure s buf < k
      → take_until tar s stop buf hdr ≡ ok (t, n)
      → IsPlaced size s o
      → IsPlaced size t (o + n) × (n ≤ length buf)
  until_below-IsPlaced zero stop s buf o m e h = absurd (omega arith)
  until_below-IsPlaced (suc k) stop s buf o {t} {n} m e h =
      elim (take_until-cases tar hdr stop s buf e) [
        | inl (e', _) ↦ (next-IsPlaced s buf o e' h, next-le-length tar hdr s buf e')
        | inr (u, a, b, moved, more, later, count) ↦
            let (placed, bounded) =
              until_below-IsPlaced k stop u (drop a buf) (o + a)
                (omega (arith, next-measure tar hdr s buf moved (pos_of_drop a buf more))) later
                (next-IsPlaced s buf o moved h) in
            let sum : o + a + b ≡ o + n = omega arith in
            (
              rw (← sum) placed,
              omega (arith, length-drop a buf, next-le-length tar hdr s buf moved),
            )
      ]

  -- A run of `take_slices` that succeeds keeps the place, where the header states the size of the
  -- entry, and counts no more bytes than it was given.
  pub take_slices-IsPlaced :
      (s : State) (bufs : List (List ℕ)) (o : ℕ) {t : State} {n : ℕ}
      → take_slices tar s bufs hdr ≡ ok (t, n)
      → IsPlaced size s o
      → IsPlaced size t (o + n) × (n ≤ length (concat bufs))
  take_slices-IsPlaced s bufs o e h =
      until_below-IsPlaced (suc (measure s (concat bufs))) stops s (concat bufs) o (omega arith)
        (sym (take_slices-eq-take_until tar hdr s bufs) ∙ e) h
