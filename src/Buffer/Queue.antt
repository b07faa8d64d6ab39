-- ===== src/Buffer/Queue.antt =====
-- src/shared/buffer.rs to a client: a queue of bytes, whose room comes back when it is cleared.
use tario.Prelude.{
  ℕ, ◌+◌, ◌-◌, min, ◌≡◌, refl, sym, ap, ◌∙◌, inl, inr, List, [], ◌∷◌, ◌++◌, arith, le-cases, length,
  take, drop, concat, length-append, length-take, drop_all,
}
use tario.Io.Result.{Result, ok, ◌>>=◌, slice_to, slice_to_lem}
use tario.Buffer.{
  Buf, Region, available, after_write, fill_from_slices, buffered, region_bytes, commit, after_read,
  clear, capacity,
}
use tario.Buffer.Contents.{
  IsValid, contents, length-contents, take-min, fill_from_slices_lem, buffered_lem, shown,
  commit_lem, after_read_lem, clear_lem,
}

-- The calls of a client: to fill the free part from slices, to read up to so many bytes, and to clear.
pub data Op : Type 0 where
  fills : List (List ℕ) → Op
  reads : ℕ → Op
  clears : Op

-- What a client sees of a call.
pub data Seen : Type 0 where
  filled : ℕ → Seen
  gave : List ℕ → Seen
  cleared : Seen

-- A call, by the operations of the buffer.
unfoldable pub call : Op → Buf → Result (Buf × Seen)
call (fills slices) b = do
  (region, n) ← fill_from_slices (available b) slices
  ok (after_write b region, filled n)
call (reads n) b = do
  region ← buffered b
  bytes ← region_bytes region
  front ← slice_to bytes (min (length bytes) n)
  region' ← commit region (length front)
  ok (after_read b region', gave front)
call clears b = ok (clear b, cleared)

unfoldable pub run : List Op → Buf → Result (Buf × List Seen)
unfolding call
run [] b = ok (b, [])
run (op ∷ ops) b = do (b', seen) ← call op b; (b'', others) ← run ops b'; ok (b'', seen ∷ others)

-- The queue: the bytes that it holds, in order, and the room behind them.
pub record Queue : Type 0 where
  pub held : List ℕ
  pub room : ℕ

-- The same call on a queue of a buffer of `total` bytes.
unfoldable pub play : ℕ → Op → Queue → Queue × Seen
play total (fills slices) q =
    let n = min (length (concat slices)) q.room in
    (record { held = q.held ++ take q.room (concat slices); room = q.room - n }, filled n)
play total (reads n) q = (record q { held = drop n q.held }, gave (take n q.held))
play total clears q = (record { held = []; room = total }, cleared)

unfoldable pub replay : ℕ → List Op → Queue → Queue × List Seen
unfolding play
replay total [] q = (q, [])
replay total (op ∷ ops) q =
    let (q', seen) = play total op q in
    let (q'', others) = replay total ops q' in (q'', seen ∷ others)

abbrev pub queue_of : Buf → Queue
queue_of b = record { held = contents b; room = capacity b - b.cap }

drop-min : (n : ℕ) (xs : List ℕ) → drop (min (length xs) n) xs ≡ drop n xs
drop-min n xs = elim (le-cases n (length xs)) [
  | inl h ↦ let e : min (length xs) n ≡ n = omega arith in rw e
  | inr h ↦
      let e : min (length xs) n ≡ length xs = omega arith in
      rw (e, drop_all (length xs) xs (omega arith)) (sym (drop_all n xs (omega arith)))
]

abbrev pub queue : List ℕ → ℕ → Queue
queue xs n = record { held = xs; room = n }

same_queue : {xs ys : List ℕ} {m n : ℕ} → xs ≡ ys → m ≡ n → queue xs m ≡ queue ys n
same_queue {xs} {ys} {m} {n} e f = ap (λ (zs : List ℕ). queue zs m) e ∙ ap (queue ys) f

-- A call on a valid buffer does what it does on the queue.
abbrev Plays : Op → Buf → Type 0
Plays op b =
    (b' : Buf) × (call op b ≡ ok (b', (play (capacity b) op (queue_of b)).1))
    × IsValid b'
    × (queue_of b' ≡ (play (capacity b) op (queue_of b)).0)
    × (capacity b' ≡ capacity b)

call-Plays : (op : Op) (b : Buf) → IsValid b → Plays op b
unfolding call play
call-Plays (fills slices) b v =
    let (region, e, valid, view, sized) = fill_from_slices_lem slices v in
    let total = concat slices in
    let free = capacity b - b.cap in
    let sum = length-append (contents b) (take free total) in
    let taken = length-take free total in
    let before = length-contents v in
    let after = length-contents valid in
    let ordered = v.ordered in
    let ordered' = valid.ordered in
    (after_write b region, rw e refl, valid, same_queue view (omega (arith, ap length view)), sized)
call-Plays (reads n) b v =
    let (shows, measured, bytes) = buffered_lem v in
    let all = contents b in
    let k = min (length all) n in
    let short : length (take k all) ≡ k = omega (arith, length-take k all) in
    let region : Region = record (shown b) { cursor = b.pos + k } in
    let len = length-contents v in
    let inside = v.inside in
    let ordered = v.ordered in
    let allocated = v.allocated in
    let (valid, rest) = after_read_lem region k v refl (omega arith) in
    (
      after_read b region,
      rw
          (
            shows,
            bytes,
            slice_to_lem all k (omega arith),
            short,
            commit_lem (shown b) k (omega arith),
            take-min n all,
          )
          refl,
      valid,
      ap (λ (xs : List ℕ). record { held = xs; room = capacity b - b.cap }) (rest ∙ drop-min n all),
      refl,
    )
call-Plays clears b v =
    let (valid, none_left) = clear_lem v in
    (clear b, refl, valid, same_queue refl (omega arith), refl)

-- Any sequence of fills, reads and clears on a valid buffer succeeds, shows a client exactly what it shows
-- on a queue of the bytes between the cursors, and leaves a valid buffer of the same size with the queue
-- that is left. A fill takes what fits behind the bytes that are held, a read takes the first bytes, and
-- the room that reads have left comes back when the buffer is cleared.
pub run-replay :
    (ops : List Op) (b : Buf)
    → IsValid b
    → let (q, seen) = replay (capacity b) ops (queue_of b) in
      (b' : Buf) × (run ops b ≡ ok (b', seen))
      × IsValid b'
      × (queue_of b' ≡ q)
      × (capacity b' ≡ capacity b)
unfolding run replay
run-replay [] b v = (b, refl, v, refl, refl)
run-replay (op ∷ ops) b v =
    let (c, e, valid, same, sized) = call-Plays op b v in
    let (d, e', valid', same', sized') = run-replay ops c valid in
    let step : replay (capacity c) ops (queue_of c)
        ≡ replay (capacity b) ops (play (capacity b) op (queue_of b)).0 =
      ap (λ (n : ℕ). replay n ops (queue_of c)) sized ∙ ap (replay (capacity b) ops) same in
    (
      d,
      rw (e, e')
          (ap (λ (o : Queue × List Seen). ok (d, (play (capacity b) op (queue_of b)).1 ∷ o.1))
            step),
      valid',
      same' ∙ ap (λ (o : Queue × List Seen). o.0) step,
      sized' ∙ sized,
    )
