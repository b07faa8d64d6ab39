-- ===== src/Buffer/Contents.antt =====
-- The buffer as the queue of the bytes between its cursors.
use tario.Prelude.{
  ℕ, ◌+◌, ◌-◌, ◌≤◌, ◌<◌, min, ◌≡◌, refl, sym, ap, ◌∙◌, inl, inr, List, [], ◌∷◌, ◌++◌, append-nil,
  append_assoc, arith, ltb, ◌==◌, Bool-cases, le-cases, length, take, drop, concat, length-append,
  length-take, length-drop, length-replicate, take_all, drop-append_le, take-append_self, drop-drop,
  take-append,
}
use tario.Io.Result.{Result, ok}
use tario.Buffer.{
  region_is_empty, after_write, usize_size, region_bytes, available, fill_from, clear,
  fill_from_slices, after_read, commit, buffered, Buf, Region, max_alloc, new, capacity,
  buffered_bytes, remaining, write_at, copy_in, fill,
}

-- The cursors stand in order, inside the buffer, which can be allocated.
pub record IsValid (b : Buf) : Type 0 where
  pub ordered : b.pos ≤ b.cap
  pub inside : b.cap ≤ length b.bytes
  pub allocated : length b.bytes ≤ max_alloc

-- The bytes that have been written and not yet read.
abbrev pub contents : Buf → List ℕ
contents b = drop b.pos (take b.cap b.bytes)

-- A new buffer is valid and empty, and holds as many bytes as it was asked for.
pub new-IsValid :
    (n : ℕ) {b : Buf} → new n ≡ ok b → IsValid b × (contents b ≡ []) × (capacity b ≡ n)
unfolding new
new-IsValid n {b} e = ground (arith, length-replicate {A = ℕ} n 0)

-- A valid buffer shows its contents, and never panics.
pub buffered_bytes_lem : {b : Buf} → IsValid b → buffered_bytes b ≡ ok (contents b)
unfolding buffered_bytes
buffered_bytes_lem {b} v = ground (arith, length-take b.cap b.bytes)

pub length-contents : {b : Buf} → IsValid b → length (contents b) ≡ b.cap - b.pos
length-contents {b} v =
    omega (arith, length-drop b.pos (take b.cap b.bytes), length-take b.cap b.bytes)

-- Copying into the bytes at the cursor: the length stays, and the bytes before it come first.
pub write_at_lem :
    (bytes : List ℕ) (at : ℕ) (src : List ℕ)
    → at + length src ≤ length bytes
    → (length (write_at bytes at src) ≡ length bytes)
      × (take (at + length src) (write_at bytes at src) ≡ take at bytes ++ src)
write_at_lem bytes at src h =
    let len : at + length src ≡ length (take at bytes ++ src) =
      omega (arith, length-append (take at bytes) src, length-take at bytes) in
    (
      omega (
        arith,
        length-append (take at bytes) (src ++ drop (at + length src) bytes),
        length-append src (drop (at + length src) bytes),
        length-take at bytes,
        length-drop (at + length src) bytes,
      ),
      ap (λ (k : ℕ). take k (write_at bytes at src)) len
          ∙ (ap (take (length (take at bytes ++ src)))
                (sym (append_assoc (take at bytes) src (drop (at + length src) bytes)))
              ∙ take-append_self (take at bytes ++ src) (drop (at + length src) bytes)),
    )

remaining_lem :
    (r : Region) → r.cursor ≤ length r.bytes → remaining r ≡ ok (length r.bytes - r.cursor)
unfolding remaining
remaining_lem r h = ground arith

copy_in_lem :
    (r : Region) (s : List ℕ) (len : ℕ)
    → r.cursor + len ≤ length r.bytes
    → len ≤ length s
    → length r.bytes ≤ max_alloc
    → copy_in r s len
      ≡ ok (record { bytes = write_at r.bytes r.cursor (take len s); cursor = r.cursor + len })
unfolding copy_in
copy_in_lem r s len h le small = ground (arith, length-drop r.cursor r.bytes)

pub take-min : (n : ℕ) (xs : List ℕ) → take (min (length xs) n) xs ≡ take n xs
take-min n xs = elim (le-cases n (length xs)) [
  | inl h ↦ let e : min (length xs) n ≡ n = omega arith in rw e
  | inr h ↦
      let e : min (length xs) n ≡ length xs = omega arith in
      rw (e, take_all (length xs) xs (omega arith)) (sym (take_all n xs (omega arith)))
]

-- What `fill` has done with `s`: it has taken as much of it as there is room for.
abbrev pub Filled : Region → List ℕ → Result (Region × ℕ) → Type 0
Filled r s result =
    (r' : Region) × (result ≡ ok (r', min (length s) (length r.bytes - r.cursor)))
    × (length r'.bytes ≡ length r.bytes)
    × (r'.cursor ≡ r.cursor + min (length s) (length r.bytes - r.cursor))
    × (take r'.cursor r'.bytes ≡ take r.cursor r.bytes ++ take (length r.bytes - r.cursor) s)

fill-Filled :
    (r : Region) (s : List ℕ)
    → r.cursor ≤ length r.bytes
    → length r.bytes ≤ max_alloc
    → Filled r s (fill r s)
unfolding fill
fill-Filled r s h small =
    let room = length r.bytes - r.cursor in
    let len = min (length s) room in
    let short : length (take len s) ≡ len = omega (arith, length-take len s) in
    let same : take len s ≡ take room s = take-min room s in
    let (sized, filled) = write_at_lem r.bytes r.cursor (take len s) (omega arith) in
    elim (Bool-cases (ltb 0 len)) [
      | inl some_bytes ↦ (
        record { bytes = write_at r.bytes r.cursor (take len s); cursor = r.cursor + len },
        rw (remaining_lem r h, some_bytes, copy_in_lem r s len (omega arith) (omega arith) small),
        sized,
        refl,
        ap (λ (k : ℕ). take (r.cursor + k) (write_at r.bytes r.cursor (take len s))) (sym short)
            ∙ (filled ∙ ap (λ (t : List ℕ). take r.cursor r.bytes ++ t) same),
      )
      | inr no_bytes ↦
          let none_fit : len ≡ 0 = ground arith in
          (
            r,
            rw (remaining_lem r h, no_bytes),
            refl,
            omega arith,
            sym (
                ap (λ (t : List ℕ). take r.cursor r.bytes ++ t)
                  (sym same ∙ ap (λ (k : ℕ). take k s) none_fit)
                ∙ append-nil (take r.cursor r.bytes)),
          )
    ]

abbrev FilledFrom : Region → ℕ → List (List ℕ) → Result (Region × ℕ) → Type 0
FilledFrom r len ss result =
    (r' : Region) × (result ≡ ok (r', len + min (length (concat ss)) (length r.bytes - r.cursor)))
    × (length r'.bytes ≡ length r.bytes)
    × (r'.cursor ≡ r.cursor + min (length (concat ss)) (length r.bytes - r.cursor))
    × (take r'.cursor r'.bytes
        ≡ take r.cursor r.bytes ++ take (length r.bytes - r.cursor) (concat ss))

fill_from-FilledFrom :
    (ss : List (List ℕ)) (r : Region) (len : ℕ)
    → r.cursor ≤ length r.bytes
    → length r.bytes ≤ max_alloc
    → FilledFrom r len ss (fill_from r len ss)
unfolding fill_from
fill_from-FilledFrom [] r len h small = (
  r,
  ground arith,
  refl,
  omega arith,
  sym (
      ap (λ (t : List ℕ). take r.cursor r.bytes ++ t)
        (take_all (length r.bytes - r.cursor) [] (omega arith))
      ∙ append-nil (take r.cursor r.bytes)),
)
fill_from-FilledFrom (s ∷ ss) r len h small =
    let room = length r.bytes - r.cursor in
    let (r₁, e₁, size₁, at₁, view₁) = fill-Filled r s h small in
    let (r₂, e₂, size₂, at₂, view₂) =
      fill_from-FilledFrom ss r₁ (len + min (length s) room) (omega arith) (omega arith) in
    let sum = length-append s (concat ss) in
    let left : length r₁.bytes - r₁.cursor ≡ room - length s = omega arith in
    (
      r₂,
      rw e₁ (e₂ ∙ ap (λ (k : ℕ). ok (r₂, k)) (omega arith)),
      size₂ ∙ size₁,
      omega arith,
      view₂
          ∙ (ap (λ (t : List ℕ). t ++ take (length r₁.bytes - r₁.cursor) (concat ss)) view₁
              ∙ (append_assoc (take r.cursor r.bytes) (take room s)
                    (take (length r₁.bytes - r₁.cursor) (concat ss))
                  ∙ ap (λ (t : List ℕ). take r.cursor r.bytes ++ t)
                      (ap (λ (k : ℕ). take room s ++ take k (concat ss)) left
                        ∙ sym (take-append room s (concat ss))))),
    )

-- Filling a valid buffer from slices never panics. It takes as many of their bytes as there is room
-- for, in order and behind the contents, and keeps the buffer valid and of its size.
pub fill_from_slices_lem :
    {b : Buf} (ss : List (List ℕ))
    → IsValid b
    → (r : Region) × (fill_from_slices (available b) ss
        ≡ ok (r, min (length (concat ss)) (capacity b - b.cap)))
      × IsValid (after_write b r)
      × (contents (after_write b r) ≡ contents b ++ take (capacity b - b.cap) (concat ss))
      × (capacity (after_write b r) ≡ capacity b)
unfolding fill_from_slices
fill_from_slices_lem {b} ss v =
    let (r, e, size, at, view) = fill_from-FilledFrom ss (available b) 0 v.inside v.allocated in
    (
      r,
      e ∙ ap (λ (k : ℕ). ok (r, k)) (omega arith),
      record { ordered = omega arith; inside = omega arith; allocated = omega arith },
      ap (drop b.pos) view
          ∙ drop-append_le b.pos (take b.cap b.bytes) (take (capacity b - b.cap) (concat ss))
              (omega (arith, length-take b.cap b.bytes)),
      size,
    )

-- The region that reading starts from.
abbrev pub shown : Buf → Region
shown b = record { bytes = take b.cap b.bytes; cursor = b.pos }

-- Reading: the region shows the contents and measures them.
pub buffered_lem :
    {b : Buf}
    → IsValid b
    → (buffered b ≡ ok (shown b))
      × (remaining (shown b) ≡ ok (length (contents b)))
      × (region_bytes (shown b) ≡ ok (contents b))
unfolding buffered remaining region_bytes
buffered_lem {b} v = (
  ground arith,
  ground (arith, length-take b.cap b.bytes, length-contents v),
  ground (arith, length-take b.cap b.bytes),
)

-- A read cursor within the bytes shown: the region is empty when all of them are read.
pub region_is_empty_lem :
    {b : Buf} (r : Region)
    → IsValid b
    → r.bytes ≡ take b.cap b.bytes
    → r.cursor ≤ b.cap
    → region_is_empty r ≡ ok (b.cap - r.cursor == 0)
unfolding region_is_empty remaining
region_is_empty_lem {b} r v e h =
    let size : length r.bytes ≡ b.cap = ap length e ∙ omega (arith, length-take b.cap b.bytes) in
    ground (arith, size)

pub commit_lem :
    (r : Region) (amt : ℕ)
    → r.cursor + amt < usize_size
    → commit r amt ≡ ok (record r { cursor = r.cursor + amt })
unfolding commit
commit_lem r amt h = ground arith

-- Moving the read cursor of a valid buffer over `amt` bytes that it holds drops exactly these from the
-- contents, and keeps the buffer valid.
pub after_read_lem :
    {b : Buf} (r : Region) (amt : ℕ)
    → IsValid b
    → r.cursor ≡ b.pos + amt
    → amt ≤ length (contents b)
    → IsValid (after_read b r) × (contents (after_read b r) ≡ drop amt (contents b))
after_read_lem {b} r amt v e h =
    let size = length-contents v in
    (
      record { ordered = omega arith; inside = v.inside; allocated = v.allocated },
      ap (λ (k : ℕ). drop k (take b.cap b.bytes)) e
          ∙ sym (drop-drop b.pos amt (take b.cap b.bytes)),
    )

-- Clearing empties the buffer and keeps it valid.
pub clear_lem : {b : Buf} → IsValid b → IsValid (clear b) × (contents (clear b) ≡ [])
clear_lem v =
    (record { ordered = omega arith; inside = omega arith; allocated = v.allocated }, refl)
