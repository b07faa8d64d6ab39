-- ===== src/Read/Header.antt =====
-- The rounds of `Archive::poll_next_entry` of src/read/mod.rs on whole blocks.
use tario.Prelude.{
  ◌==◌, some, false, all_zero, ℕ, suc, ◌<◌, ◌≡◌, refl, sym, ap, ◌∙◌, true, Option, none, List, [],
  ◌∷◌, ◌++◌, append-nil, arith, length, take, drop, length-append, take-append_self,
  drop-append_self,
}
use tario.Io.Result.{slice_to_lem, slice_to, ok}
use tario.Io.Poll.{done, ready, pass_of, ◌>>◌}
use tario.Block.{as_header, from_bytes, Header, Tar, block_size}
use tario.Buffer.{Buf}
use tario.Buffer.Contents.{buffered_bytes_lem, contents}
use tario.Buffer.Room.{IsReady, IsReady-change}
use tario.State.{
  received_header, receiving_data, entry_size, received_eof, receiving_eof, State, next,
  expecting_header, receiving_header, take_slices, contains,
}
use tario.State.Chunks.{take_slices-eq-take_until}
use tario.State.Layout.{next_eof_block, scan_eof, next_block, scan_header_block, scan, ends}
use tario.Archive.{new_entry, Archive}
use tario.Read.Consume.{consume, settle, passes_on}
use tario.Read.Calls.{
  take_entry, AsyncRead, consumes, poll_fill_buf, on_next_entry, next_entry_loop,
}
use tario.Read.Buffered.{consume_lem, poll_next_state_ok}
use tario.Read.Data.{consumes_lem}
use tario.Read.Stream.{poll_next_state_refilled}

module _ {R : Type 0} (tar : Tar) (source : AsyncRead R) where
  -- `consume` on the front of the contents.
  pub consume_front :
      (a : Archive R) (front rest : List ℕ) (header : Option Header) {n : ℕ} {t u : State}
      → IsReady a.buf
      → contents a.buf ≡ front ++ rest
      → length front ≡ n
      → scan tar header a.state front ≡ ok (t, n)
      → settle tar t header ≡ ok u
      → (b : Buf) × (consume tar a n header ≡ ok (record a { buf = b; state = u }))
        × IsReady b
        × (contents b ≡ rest)
  consume_front a front rest header {n} {t} {u} r view len leads settles =
      let all = length-append front rest in
      let cut : take n (contents a.buf) ≡ front =
        ap (take n) view
        ∙ (ap (λ (k : ℕ). take k (front ++ rest)) (sym len) ∙ take-append_self front rest) in
      let taken : take_slices tar a.state (take n (contents a.buf) ∷ []) header ≡ ok (t, n) =
        take_slices-eq-take_until tar header a.state (take n (contents a.buf) ∷ [])
        ∙ (ap (scan tar header a.state) (append-nil (take n (contents a.buf)) ∙ cut) ∙ leads) in
      let (b, moved, valid, dropped, sized, normal) =
        consume_lem tar a n header {t = t} {u = u} r.valid (omega (arith, ap length view)) taken
          settles in
      (
        b,
        moved,
        IsReady-change r valid normal sized,
        dropped
            ∙ (ap (drop n) view
                ∙ (ap (λ (k : ℕ). drop k (front ++ rest)) (sym len) ∙ drop-append_self front rest)),
      )

  -- A round by the next state and by what it consumes.
  pub next_round :
      (a a' : Archive R) (fuel n : ℕ) {t : State}
      → IsReady a.buf
      → 0 < length (contents a.buf)
      → next tar a.state (contents a.buf) none ≡ ok (t, n)
      → on_next_entry tar source (next_entry_loop tar source fuel) (t, n) a
        ≡ (consumes tar source n none >> next_entry_loop tar source fuel) a
      → consume tar a n none ≡ ok a'
      → next_entry_loop tar source (suc fuel) a ≡ next_entry_loop tar source fuel a'
  unfolding next_entry_loop
  next_round a a' fuel n {t} r held e goes moved =
      pass_of (on_next_entry tar source (next_entry_loop tar source fuel))
        (poll_next_state_ok tar source a r.valid none {r = (t, n)} held e)
      ∙ (goes
          ∙ pass_of (λ _. next_entry_loop tar source fuel) (consumes_lem tar source a n none moved))

  pub next_entry_loop_refilled :
      (a a' : Archive R) (fuel : ℕ)
      → IsReady a'.buf
      → 0 < length (contents a'.buf)
      → poll_fill_buf tar source a ≡ (ready tt, a')
      → next_entry_loop tar source (suc fuel) a ≡ next_entry_loop tar source (suc fuel) a'
  unfolding next_entry_loop
  next_entry_loop_refilled a a' fuel r held filled =
      pass_of (on_next_entry tar source (next_entry_loop tar source fuel))
        (poll_next_state_refilled tar source a a' none r held filled)

  pub header_starts :
      (a : Archive R) (fuel : ℕ)
      → IsReady a.buf
      → a.state ≡ expecting_header
      → 0 < length (contents a.buf)
      → (b : Buf) × (next_entry_loop tar source (suc fuel) a
          ≡ next_entry_loop tar source fuel
              (record a { buf = b; state = receiving_header block_size true }))
        × IsReady b
        × (contents b ≡ contents a.buf)
  unfolding next on_next_entry contains settle passes_on
  header_starts a fuel r s held =
      let (b, moved, after, same) =
        consume_front a [] (contents a.buf) none {t = receiving_header block_size true}
          {u = receiving_header block_size true} r refl refl
          (ap (λ (t : State). scan tar none t []) s
            ∙ ends tar none expecting_header (receiving_header block_size true) 0 [] refl refl)
          refl in
      (
        b,
        next_round a (record a { buf = b; state = receiving_header block_size true }) fuel 0
            {t = receiving_header block_size true} r held (rw s) refl moved,
        after,
        same,
      )

  pub empty_block_first :
      (a : Archive R) (fuel : ℕ) (blk rest : List ℕ)
      → IsReady a.buf
      → a.state ≡ receiving_header block_size true
      → contents a.buf ≡ blk ++ rest
      → length blk ≡ block_size
      → all_zero blk ≡ true
      → (b : Buf) × (next_entry_loop tar source (suc fuel) a
          ≡ next_entry_loop tar source fuel
              (record a { buf = b; state = receiving_eof block_size }))
        × IsReady b
        × (contents b ≡ rest)
  unfolding on_next_entry settle passes_on
  empty_block_first a fuel blk rest r s view len z =
      let all = length-append blk rest in
      let (b, moved, after, left) =
        consume_front a blk rest none {t = receiving_eof block_size} {u = receiving_eof block_size}
          r view len
          (ap (λ (t : State). scan tar none t blk) s
            ∙ (scan_header_block tar none blk len ∙ rw (z, len)))
          refl in
      (
        b,
        next_round a (record a { buf = b; state = receiving_eof block_size }) fuel block_size
            {t = receiving_eof block_size} r (omega (arith, ap length view))
            (rw (s, view) (next_block tar none blk rest len ∙ rw z)) refl moved,
        after,
        left,
      )

  pub empty_block_last :
      (a : Archive R) (fuel : ℕ) (blk rest : List ℕ)
      → IsReady a.buf
      → a.state ≡ receiving_eof block_size
      → contents a.buf ≡ blk ++ rest
      → length blk ≡ block_size
      → all_zero blk ≡ true
      → (b : Buf) × (next_entry_loop tar source (suc fuel) a
          ≡ (ready none, record a { buf = b; state = received_eof }))
        × IsReady b
        × (contents b ≡ rest)
  unfolding next_entry_loop on_next_entry settle passes_on
  empty_block_last a fuel blk rest r s view len z =
      let all = length-append blk rest in
      let leads : scan tar none (receiving_eof block_size) blk ≡ ok (received_eof, block_size) =
        ap (scan tar none (receiving_eof block_size)) (sym (append-nil blk))
        ∙ (scan_eof tar none blk [] len ∙ rw z) in
      let (b, moved, after, left) =
        consume_front a blk rest none {t = received_eof} {u = received_eof} r view len
          (ap (λ (t : State). scan tar none t blk) s ∙ leads) refl in
      (
        b,
        pass_of (on_next_entry tar source (next_entry_loop tar source fuel)) (
              poll_next_state_ok tar source a r.valid none {r = (received_eof, block_size)}
                (omega (arith, ap length view))
                (rw (s, view) (next_eof_block tar none blk rest len z)))
            ∙ pass_of (λ _. done none) (consumes_lem tar source a block_size none moved),
        after,
        left,
      )

  pub header_block :
      (a : Archive R) (fuel size : ℕ) (h rest : List ℕ)
      → IsReady a.buf
      → a.state ≡ receiving_header block_size true
      → contents a.buf ≡ h ++ rest
      → length h ≡ block_size
      → all_zero h ≡ false
      → as_header tar h ≡ ok h
      → new_entry tar h ≡ ok h
      → entry_size tar (some h) ≡ ok size
      → (b : Buf) × (next_entry_loop tar source (suc fuel) a
          ≡ (ready (some h), record a { buf = b; state = receiving_data size }))
        × IsReady b
        × (contents b ≡ rest)
  unfolding next_entry_loop on_next_entry take_entry from_bytes settle passes_on next
  header_block a fuel size h rest r s view len z stated made sized =
      let all = length-append h rest in
      let (b, moved, after, left) =
        consume_front a h rest (some h) {n = block_size} {t = received_header}
          {u = receiving_data size} r view len
          (ap (λ (t : State). scan tar (some h) t h) s
            ∙ (scan_header_block tar (some h) h len ∙ rw (z, len)))
          (rw (sized)) in
      let cut : slice_to (contents a.buf) block_size ≡ ok h =
        slice_to_lem (contents a.buf) block_size (omega (arith, ap length view))
        ∙ ap ok (
            ap (take block_size) view
            ∙ (ap (λ (k : ℕ). take k (h ++ rest)) (sym len) ∙ take-append_self h rest)) in
      let whole : (length h == block_size) ≡ true = ground arith in
      (
        b,
        pass_of (on_next_entry tar source (next_entry_loop tar source fuel)) (
              poll_next_state_ok tar source a r.valid none {r = (received_header, block_size)}
                (omega (arith, ap length view))
                (rw (s, view) (next_block tar none h rest len ∙ rw z)))
            ∙ rw (
              buffered_bytes_lem r.valid,
              cut,
              whole,
              stated,
              consumes_lem tar source a block_size (some h) moved,
              made,
            ),
        after,
        left,
      )
