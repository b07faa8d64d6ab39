-- ===== src/Write/Retry.antt =====
-- `Entry::poll_write` of src/write/mod.rs where the sink is not ready for the padding.
use tario.Prelude.{
  ℕ, ◌+◌, ◌-◌, ◌≤◌, ◌<◌, ◌≡◌, refl, ap, ◌∙◌, Bool, true, false, ◌&&◌, Option, some, List, [], ◌∷◌,
  ◌++◌, append-nil, arith, leb, ◌==◌, if◌then◌else◌, length, take, replicate, concat, length-append,
  length-replicate, take-append_self,
}
use tario.Io.Result.{ok, invalid_state}
use tario.Io.Poll.{Poll, ready, pending, pass_of, modify, ◌>>◌, done, panicked}
use tario.Block.{Tar, Header, block_size}
use tario.Buffer.{usize_size, capacity, clear, Buf}
use tario.Buffer.Contents.{IsValid, contents, length-contents}
use tario.Slices.{prefix_iter, bytes_len, usize_max}
use tario.Slices.Iter.{slices_take_prefix_lem, bytes_len_lem}
use tario.State.{
  State, received_data, aligning_data, aligned_data, take_until, stops, take_slices, entry_size,
  u64_size, take_marker, is_marker, state_eq, receiving_data,
}
use tario.State.Chunks.{take_slices-eq-take_until}
use tario.State.Layout.{padding, next_pad}
use tario.Write.Entries.{entry_write, finish_quietly, finish_written, write_some}
use tario.Write.Buffered.{poll_write_bytes}
use tario.Write.Parts.{take_data, asserted, is_received, entry_write_some}
use tario.Write.Faults.{entry_write_panics}
use tario.Archive.{Archive, Entry}
use tario.Write.Calls.{
  AsyncWrite, can_pass_through, poll_write_data, poll_write_vectored, poll_finish_entry,
  finish_entry_loop, on_finish_entry, poll_flush_buffered, flush_loop,
}
use tario.Write.Flush.{flush_loop_step, flush_round_lem}
use tario.Write.Vectored.{write_parts}
use tario.Write.Finish.{finish_round, take_pad, cut_block, takes_marker_lem}
use tario.Write.Ready.{make_room_flushes, and_false}

module _ {W : Type 0} (tar : Tar) (sink : AsyncWrite W) (debug : Bool) where
  flush_pending :
      (a : Archive W) {w : W}
      → IsValid a.buf
      → 0 < length (contents a.buf)
      → sink.poll_write (contents a.buf) a.io ≡ (pending, w)
      → poll_flush_buffered tar sink a ≡ (pending, record a { io = w })
  unfolding poll_flush_buffered
  flush_pending a {w} v held waits =
      let later = modify (λ (b : Archive W). record b { buf = clear b.buf }) in
      pass_of (λ _. later)
        (flush_loop_step tar sink a (usize_size - 1) v (ground arith)
          ∙ pass_of (λ _. flush_loop tar sink (usize_size - 1))
              (flush_round_lem tar sink a v waits))

  write_pending :
      (a : Archive W) (bytes : List ℕ) (header : Option Header) {t : State} {w : W}
      → IsValid a.buf
      → 0 < length (contents a.buf)
      → length bytes ≤ usize_max
      → sink.poll_write (contents a.buf) a.io ≡ (pending, w)
      → can_pass_through tar sink (length bytes) a ≡ false
      → capacity a.buf - a.buf.cap < length bytes
      → take_until tar a.state stops bytes header ≡ ok (t, length bytes)
      → poll_write_data tar sink bytes header a ≡ (pending, record a { io = w })
  unfolding poll_write_data
  write_pending a bytes header {t} v held narrow waits through short taken =
      let (p, cut, taken_front) = slices_take_prefix_lem (bytes ∷ []) (length bytes) in
      let front : concat (prefix_iter p) ≡ bytes = taken_front ∙ take-append_self bytes [] in
      let size : bytes_len (prefix_iter p) ≡ length bytes =
        bytes_len_lem (prefix_iter p) ∙ omega (arith, ap length front) in
      let leads : take_slices tar a.state (prefix_iter p) header ≡ ok (t, length bytes) =
        take_slices-eq-take_until tar header a.state (prefix_iter p)
        ∙ (ap (λ (xs : List ℕ). take_until tar a.state stops xs header) front ∙ taken) in
      write_parts tar sink a (bytes ∷ []) (length bytes) header p (length bytes) t cut size leads
      ∙ rw
          (
            through,
            make_room_flushes tar sink (length bytes) a v short,
            flush_pending a v held waits,
          )
          refl

  -- The padding is pending: the state has moved on to it.
  finish_pending :
      (a : Archive W) (h : Header) (n : ℕ) {w : W}
      → IsValid a.buf
      → 0 < length (contents a.buf)
      → a.state ≡ received_data
      → entry_size tar (some h) ≡ ok n
      → n + block_size ≤ u64_size
      → sink.poll_write (contents a.buf) a.io ≡ (pending, w)
      → can_pass_through tar sink (padding n) a ≡ false
      → capacity a.buf - a.buf.cap < padding n
      → poll_finish_entry tar sink h a
        ≡ (pending, record a { state = aligning_data (padding n); io = w })
  unfolding poll_finish_entry take_marker is_marker on_finish_entry
  finish_pending a h n v held s sized small waits through short =
      let rem = padding n in
      let pad : List ℕ = replicate rem 0 in
      let len : length pad ≡ rem = length-replicate rem 0 in
      let marked : take_marker tar received_data (some h) ≡ ok (aligning_data rem) =
        rw (next_pad tar (some h) n [] sized small) in
      let a' = record a { state = aligning_data rem } in
      let loop = finish_entry_loop tar sink in
      finish_round tar sink h 1023 a s
      ∙ (pass_of (λ _. loop 1023 h)
            (takes_marker_lem tar sink a (some h)
              (ap (λ (t : State). take_marker tar t (some h)) s ∙ marked))
          ∙ (finish_round tar sink h 1022 a' refl
              ∙ rw (cut_block rem (omega arith)) (
                  pass_of (λ _. loop 1022 h)
                    (write_pending a' pad (some h) {t = aligned_data} v held (omega arith) waits
                      (rw len through) (omega arith) (take_pad tar sink pad (some h) rem len)))))

  finish_quietly_pending :
      (e : Entry) (a b : Archive W)
      → poll_finish_entry tar sink e a ≡ (pending, b)
      → finish_quietly tar sink debug e a ≡ (pending, b)
  unfolding finish_quietly
  finish_quietly_pending e a b waits =
      rw (finish_quietly, waits, ap (λ (r : Poll (Unit {0}) × Archive W). r.1) waits)

  finish_written_pending :
      (e : Entry) (bufs : List (List ℕ)) (a b : Archive W) (n : ℕ)
      → bytes_len bufs ≡ n
      → a.state ≡ received_data
      → poll_finish_entry tar sink e a ≡ (pending, b)
      → finish_written tar sink debug bufs n e a ≡ (pending, b)
  unfolding finish_written
  finish_written_pending e bufs a b n counted s waits =
      let same : (bytes_len bufs == n) ≡ true = ground (arith, counted) in
      let at_end : state_eq a.state received_data ≡ true = is_received s in
      rw (
        asserted tar sink debug (bytes_len bufs == n) same,
        asserted tar sink debug (state_eq a.state received_data) at_end,
        finish_quietly_pending e a b waits,
      )

  write_some_pending :
      (e : Entry) (bufs : List (List ℕ)) (a b c : Archive W) (rem : ℕ)
      → poll_write_vectored tar sink bufs rem (some e) a ≡ (ready rem, b)
      → finish_written tar sink debug bufs rem e b ≡ (pending, c)
      → write_some tar sink debug bufs e rem a ≡ (pending, c)
  unfolding write_some
  write_some_pending e bufs a b c rem written waits =
      let test : (rem == rem) ≡ true = ground arith in
      pass_of
        (λ (n : ℕ).
          (if n == rem then finish_written tar sink debug bufs n e else done tt) >> done n)
        written
      ∙ (ap
            (λ (t : Bool).
              ((if t then finish_written tar sink debug bufs rem e else done tt) >> done rem) b)
            test
          ∙ pass_of (λ _. done rem) waits)

  -- The last bytes of an entry fit into a valid buffer, and the padding does not, while the sink is not
  -- ready and takes no slices at once: the write is pending, although the bytes are buffered, and the
  -- caller, who tries it again with the same bytes as `AsyncWrite` asks for, runs into a panic. The header
  -- states a size of at most 2^64 - 512.
  pub entry_write-entry_write_pending :
      (a : Archive W) (e : Entry) (bytes : List ℕ) (n : ℕ) (w : W)
      → IsValid a.buf
      → a.state ≡ receiving_data (length bytes)
      → 0 < length bytes
      → length bytes ≤ capacity a.buf - a.buf.cap
      → capacity a.buf - a.buf.cap - length bytes < padding n
      → entry_size tar (some e) ≡ ok n
      → n + block_size ≤ u64_size
      → ((bs : List ℕ) → sink.poll_write bs a.io ≡ (pending, w))
      → sink.is_write_vectored a.io ≡ false
      → (b : Archive W) × (entry_write tar sink debug e bytes a ≡ (pending, b))
        × (contents b.buf ≡ contents a.buf ++ bytes)
        × (entry_write tar sink debug e bytes b ≡ (panicked invalid_state, b))
  entry_write-entry_write_pending a e bytes n w v s some_bytes fits short sized small waits narrow =
      let allocated = v.allocated in
      let narrows : (k : ℕ) (b : Buf)
          → (leb (capacity b) k && sink.is_write_vectored a.io) ≡ false =
        λ k b. ap (λ (c : Bool). leb (capacity b) k && c) narrow ∙ and_false (leb (capacity b) k) in
      let all : (length bytes == length bytes) ≡ true = ground arith in
      let same : take (length bytes) (concat (bytes ∷ [])) ≡ bytes = take-append_self bytes [] in
      let (b, written, valid, held, sized', unmoved) =
        poll_write_bytes tar sink a v (bytes ∷ []) (length bytes) (some e) {bytes = bytes}
          {t = received_data} same fits (narrows (length bytes) a.buf)
          (rw s
            (take_data tar sink debug bytes (some e) (length bytes) (omega arith) ∙ rw all refl)) in
      let mid = record a { buf = b; state = received_data } in
      let len = length-contents v in
      let len' = length-contents valid in
      let sum = ap length held ∙ length-append (contents a.buf) bytes in
      let ordered = v.ordered in
      let ordered' = valid.ordered in
      let counted : bytes_len (bytes ∷ []) ≡ length bytes =
        bytes_len_lem (bytes ∷ []) ∙ omega (arith, ap length (append-nil bytes)) in
      let b' = record mid { state = aligning_data (padding n); io = w } in
      let stuck : poll_finish_entry tar sink e mid ≡ (pending, b') =
        finish_pending mid e n valid (omega arith) refl sized small (waits (contents b))
          (narrows (padding n) b) (omega arith) in
      (
        b',
        entry_write_some tar sink debug e a bytes (length bytes) s
            ∙ write_some_pending e (bytes ∷ []) a mid b' (length bytes) written
                (finish_written_pending e (bytes ∷ []) mid b' (length bytes) counted refl stuck),
        held,
        entry_write_panics tar sink debug b' e bytes (padding n) refl,
      )
