-- ===== src/Slices/Iter.antt =====
-- The measures and iterators over slices, and what `take_prefix` gives.
use tario.Prelude.{
  ℕ, zero, suc, ◌+◌, ◌-◌, ◌≤◌, ◌<◌, min, ◌≡◌, refl, sym, ap, ◌∙◌, ◌≢◌, inl, inr, true, false,
  Option, none, some, List, [], ◌∷◌, ◌++◌, append-nil, arith, ltb, leb, ◌==◌, Bool-cases, le-cases,
  length, take, drop, concat, length-append, take-append-drop, take_all, drop_all, take-append_le,
  take-append_add, drop-append_le, drop-append_add,
}
use mathlib.Core.List.{foldl}
use mathlib.Core.Path.{ap₂, subst}
use tario.Io.Result.{Result, ok, err, panic}
use tario.Slices.{
  Slice, Prefix, Suffix, prefix_iter, suffix_iter, usize_max, saturating_add, bytes_len,
  slices_take_prefix, prefix_split_at_byte_offset, prefix_take_prefix, take_next, skip_loop,
  skip_next,
}
use tario.Slices.Split.{slices_split_at_byte_offset_lem, concat-snoc}
use tario.Slices.Prefix.{prefix_split_at_byte_offset_lem}

-- `take_prefix` on slices never panics, and keeps the first `n` bytes.
pub slices_take_prefix_lem :
    (slices : List Slice) (n : ℕ)
    → (p : Prefix) × (slices_take_prefix slices n ≡ ok p)
      × (concat (prefix_iter p) ≡ take n (concat slices))
unfolding slices_take_prefix
slices_take_prefix_lem slices n =
    let (p, s, e, left, right) = slices_split_at_byte_offset_lem slices n in (p, rw e, left)

-- `take_prefix` on a prefix never panics, and keeps the first `n` bytes, in the remainder too.
pub prefix_take_prefix_lem :
    (p : Prefix) (n : ℕ)
    → (q : Prefix) × (prefix_take_prefix p n ≡ ok q)
      × (concat (prefix_iter q) ≡ take n (concat (prefix_iter p)))
unfolding prefix_take_prefix
prefix_take_prefix_lem p n =
    let (q, s, e, left, right) = prefix_split_at_byte_offset_lem p n in (q, rw e, left)

abbrev parts_of : Prefix × Suffix → Result (Prefix × Suffix) → Prefix × Suffix
parts_of other (ok r) = r
parts_of other (err e) = other
parts_of other (panic x) = other

-- Where a prefix has a remainder and is split inside its whole slices, the two parts together are
-- not the prefix: the bytes of the remainder are in neither.
pub prefix_split-drops_remainder :
    (p : Prefix) (n : ℕ) {q : Prefix} {s : Suffix}
    → n < length (concat p.slices)
    → 0 < length p.remainder
    → prefix_split_at_byte_offset p n ≡ ok (q, s)
    → (concat (prefix_iter q) ++ concat (suffix_iter s) ≡ concat p.slices)
      × (concat (prefix_iter q) ++ concat (suffix_iter s) ≢ concat (prefix_iter p))
prefix_split-drops_remainder p n {q} {s} inside some_left e =
    let (q', s', e', left, right) = prefix_split_at_byte_offset_lem p n in
    let same : ◌≡◌ {A = Result (Prefix × Suffix)} (ok (q', s')) (ok (q, s)) = sym e' ∙ e in
    let test : ltb n (length (concat p.slices)) ≡ true = ground arith in
    let all = concat-snoc p.slices p.remainder in
    let halves : concat (prefix_iter q') ++ concat (suffix_iter s') ≡ concat p.slices =
      ap₂ ◌++◌
        (left ∙ (ap (take n) all ∙ take-append_le n (concat p.slices) p.remainder (omega arith)))
        (right ∙ rw test)
      ∙ take-append-drop n (concat p.slices) in
    let whole : concat (prefix_iter q) ++ concat (suffix_iter s) ≡ concat p.slices =
      subst
        (λ (r : Result (Prefix × Suffix)).
          concat (prefix_iter (parts_of (q, s) r).0) ++ concat (suffix_iter (parts_of (q, s) r).1)
          ≡ concat p.slices)
        same halves in
    (
      whole,
      λ wrong. omega (
        arith,
        ap length (sym whole ∙ (wrong ∙ all)),
        length-append (concat p.slices) p.remainder,
      ),
    )

bytes_len_from :
    (slices : List Slice) (acc : ℕ)
    → acc ≤ usize_max
    → foldl (λ acc b. saturating_add acc (length b)) acc slices
      ≡ min (acc + length (concat slices)) usize_max
bytes_len_from [] acc h = omega arith
bytes_len_from (s ∷ ss) acc h =
    bytes_len_from ss (saturating_add acc (length s)) (omega arith)
    ∙ omega (arith, length-append s (concat ss))

-- `bytes_len` is the number of bytes, held at the largest `usize`.
pub bytes_len_lem :
    (slices : List Slice) → bytes_len slices ≡ min (length (concat slices)) usize_max
unfolding bytes_len
bytes_len_lem slices = bytes_len_from slices 0 (omega arith) ∙ omega arith

abbrev Step : Type 0
Step = Option (Slice × List Slice × ℕ)

-- The slice that a call gave, with what the calls after it give.
abbrev give : Step → (List Slice × ℕ → List Slice) → List Slice
give none later = []
give (some (buf, rest, rem)) later = buf ∷ later (rest, rem)

-- All that an iterator gives, in so many calls.
abbrev pub collect :
    (List Slice × ℕ → Option (Slice × List Slice × ℕ)) → ℕ → List Slice × ℕ → List Slice
collect step zero it = []
collect step (suc calls) it = give (step it) (collect step calls)

gives :
    (step : List Slice × ℕ → Step) (calls : ℕ) (it : List Slice × ℕ) (o : Step)
    → step it ≡ o
    → concat (collect step (suc calls) it) ≡ concat (give o (collect step calls))
gives step calls it o e = ap (λ (r : Step). concat (give r (collect step calls))) e

collect-take_zero :
    (calls : ℕ) (bufs : List Slice) → concat (collect take_next calls (bufs, 0)) ≡ []
unfolding take_next
collect-take_zero zero bufs = refl
collect-take_zero (suc calls) bufs = refl

-- The slices that `TakeBytesLen` gives, in more calls than it has slices, hold the first `n` bytes,
-- however they are cut.
pub collect-take_next :
    (calls : ℕ) (bufs : List Slice) (n : ℕ)
    → length bufs < calls
    → concat (collect take_next calls (bufs, n)) ≡ take n (concat bufs)
unfolding take_next
collect-take_next zero bufs n h = absurd (omega arith)
collect-take_next (suc calls) [] n h =
    gives take_next calls ([], n) none (ground arith) ∙ sym (take_all n [] (omega arith))
collect-take_next (suc calls) (b ∷ bs) n h = elim (Bool-cases (n == 0)) [
  | inl z ↦
      let e : n ≡ 0 = ground arith in
      gives take_next calls (b ∷ bs, n) none (rw z) ∙ ap (λ k. take k (b ++ concat bs)) (sym e)
  | inr z ↦ elim (le-cases (length b) n) [
    | inl le ↦
        let sum : n ≡ length b + (n - length b) = omega arith in
        gives take_next calls (b ∷ bs, n) (some (b, bs, n - length b)) (ground arith)
        ∙ (ap (λ t. b ++ t) (collect-take_next calls bs (n - length b) (omega arith))
            ∙ (sym (take-append_add b (concat bs) (n - length b))
                ∙ ap (λ k. take k (b ++ concat bs)) (sym sum)))
    | inr lt ↦
        gives take_next calls (b ∷ bs, n) (some (take n b, bs, 0)) (ground arith)
        ∙ rw (collect-take_zero calls bs, append-nil, take-append_le n b (concat bs) (omega arith))
  ]
]

collect-skip_zero :
    (calls : ℕ) (bufs : List Slice)
    → length bufs < calls
    → concat (collect skip_next calls (bufs, 0)) ≡ concat bufs
unfolding skip_next
collect-skip_zero zero bufs h = absurd (omega arith)
collect-skip_zero (suc calls) [] h = refl
collect-skip_zero (suc calls) (b ∷ bs) h =
    ap (λ (t : List ℕ). b ++ t) (collect-skip_zero calls bs (omega arith))

give-skip_loop :
    (calls : ℕ) (bufs : List Slice) (n : ℕ)
    → length bufs ≤ calls
    → concat (give (skip_loop bufs n) (collect skip_next calls)) ≡ drop n (concat bufs)
unfolding skip_loop
give-skip_loop calls [] n h = sym (drop_all n [] (omega arith))
give-skip_loop calls (b ∷ bs) n h = elim (le-cases (length b) n) [
  | inl le ↦
      let passed : leb (length b) n ≡ true = ground arith in
      let sum : n ≡ length b + (n - length b) = omega arith in
      rw passed (
        give-skip_loop calls bs (n - length b) (omega arith)
        ∙ (sym (drop-append_add b (concat bs) (n - length b))
            ∙ ap (λ k. drop k (b ++ concat bs)) (sym sum)))
  | inr lt ↦
      let cut : leb (length b) n ≡ false = ground arith in
      rw cut (
        ap (λ t. drop n b ++ t) (collect-skip_zero calls bs (omega arith))
        ∙ sym (drop-append_le n b (concat bs) (omega arith)))
]

-- The slices that `SkipBytesLen` gives, in more calls than it has slices, hold all but the first `n`
-- bytes, however they are cut.
pub collect-skip_next :
    (calls : ℕ) (bufs : List Slice) (n : ℕ)
    → length bufs < calls
    → concat (collect skip_next calls (bufs, n)) ≡ drop n (concat bufs)
unfolding skip_next
collect-skip_next zero bufs n h = absurd (omega arith)
collect-skip_next (suc calls) bufs n h = elim (Bool-cases (n == 0)) [
  | inl z ↦ let e : n ≡ 0 = ground arith in rw e (collect-skip_zero (suc calls) bufs h)
  | inr z ↦
      gives skip_next calls (bufs, n) (skip_loop bufs n) (rw z)
      ∙ give-skip_loop calls bufs n (omega arith)
]
