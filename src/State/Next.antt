-- ===== src/State/Next.antt =====
-- One transition of `State::next`: how much it reads, and what it does on a buffer cut in two.
use tario.Prelude.{
  ℕ, ◌+◌, ◌-◌, ◌≤◌, ◌<◌, ◌≡◌, refl, ◌⊎◌, inl, inr, false, ◌&&◌, Option, List, ◌++◌, arith, le-cases,
  Bool-cases, length, take, all_zero, length-append, take_all, take-append_le, take-append_add,
  all_zero-append, ap,
}
use tario.Io.Result.{Result, ok, err, panic}
use tario.Block.{Header, Tar}
use tario.State.{
  State, expecting_header, receiving_header, received_header, receiving_data, received_data,
  aligning_data, aligned_data, receiving_eof, received_eof, advance, next, contains, stops,
}

-- The same transition, counted from an earlier offset.
abbrev pub shift : ℕ → Result (State × ℕ) → Result (State × ℕ)
shift k (ok (t, n)) = ok (t, k + n)
shift k (err e) = err e
shift k (panic p) = panic p

-- Where a read ends in the first of two parts it sees that part alone.
advance-append_le :
    (rem : ℕ) (xs ys : List ℕ) → rem ≤ length xs → advance (xs ++ ys) rem ≡ advance xs rem
advance-append_le rem xs ys h = omega (arith, length-append xs ys)

zero-append_le :
    (rem : ℕ) (xs ys : List ℕ)
    → rem ≤ length xs
    → all_zero (take (advance (xs ++ ys) rem) (xs ++ ys)) ≡ all_zero (take (advance xs rem) xs)
zero-append_le rem xs ys h =
    rw (advance-append_le rem xs ys h, take-append_le (advance xs rem) xs ys (omega arith))

-- Where it goes on it has read the whole first part.
advance-append_lt :
    (rem : ℕ) (xs ys : List ℕ)
    → length xs < rem
    → advance (xs ++ ys) rem ≡ length xs + advance ys (rem - length xs)
advance-append_lt rem xs ys h = omega (arith, length-append xs ys)

zero_all :
    (rem : ℕ) (xs : List ℕ) → length xs < rem → all_zero (take (advance xs rem) xs) ≡ all_zero xs
zero_all rem xs h = ap all_zero (take_all (advance xs rem) xs (omega arith))

zero-append_lt :
    (rem : ℕ) (xs ys : List ℕ)
    → length xs < rem
    → all_zero (take (advance (xs ++ ys) rem) (xs ++ ys))
      ≡ (all_zero xs && all_zero (take (advance ys (rem - length xs)) ys))
zero-append_lt rem xs ys h =
    rw (advance-append_lt rem xs ys h, take-append_add xs ys (advance ys (rem - length xs)))
      (all_zero-append xs (take (advance ys (rem - length xs)) ys))

module _ (tar : Tar) (hdr : Option Header) where
  -- A transition never reads past the buffer.
  pub next-le-length :
      (s : State) (buf : List ℕ) {t : State} {n : ℕ}
      → next tar s buf hdr ≡ ok (t, n)
      → n ≤ length buf
  unfolding next
  next-le-length expecting_header buf e = ground arith
  next-le-length (receiving_header rem z) buf e = ground arith
  next-le-length received_header buf e = ground arith
  next-le-length (receiving_data rem) buf e = ground arith
  next-le-length received_data buf e = ground arith
  next-le-length (aligning_data rem) buf e = ground arith
  next-le-length aligned_data buf e = ground arith
  next-le-length (receiving_eof rem) buf e = ground arith
  next-le-length received_eof buf e = ground arith

  -- The transition on the two parts together: what the first part decides alone, or a read of all of
  -- the first part that goes on in the second.
  abbrev pub Splits : State → List ℕ → List ℕ → Type 0
  Splits s xs ys =
      (next tar s (xs ++ ys) hdr ≡ next tar s xs hdr)
      ⊎ ((t : State) × (next tar s xs hdr ≡ ok (t, length xs))
          × (contains stops t ≡ false)
          × (next tar s (xs ++ ys) hdr ≡ shift (length xs) (next tar t ys hdr)))

  -- A transition on two parts in a row is the transition on the first, or it reads all of the first to
  -- a state that is no stop state, and is then the transition from there on the second, counted from
  -- the end of the first.
  pub next-append : (s : State) (xs ys : List ℕ) → Splits s xs ys
  unfolding next contains
  next-append expecting_header xs ys = inl refl
  next-append (receiving_header rem z) xs ys = elim (le-cases rem (length xs)) [
    | inl h ↦ inl (ground (arith, length-append xs ys, zero-append_le rem xs ys h))
    | inr h ↦ inr (
      receiving_header (rem - length xs) (z && all_zero xs),
      ground (arith, zero_all rem xs h),
      ground arith,
      ground (arith, length-append xs ys, zero-append_lt rem xs ys h),
    )
  ]
  next-append received_header xs ys = inl refl
  next-append (receiving_data rem) xs ys = elim (le-cases rem (length xs)) [
    | inl h ↦ inl (ground (arith, length-append xs ys))
    | inr h ↦ inr (
      receiving_data (rem - length xs),
      ground arith,
      ground arith,
      ground (arith, length-append xs ys),
    )
  ]
  next-append received_data xs ys = inl refl
  next-append (aligning_data rem) xs ys = elim (le-cases rem (length xs)) [
    | inl h ↦ inl (ground (arith, length-append xs ys))
    | inr h ↦ inr (
      aligning_data (rem - length xs),
      ground arith,
      ground arith,
      ground (arith, length-append xs ys),
    )
  ]
  next-append aligned_data xs ys = inl refl
  next-append (receiving_eof rem) xs ys = elim (le-cases rem (length xs)) [
    | inl h ↦ inl (ground (arith, length-append xs ys, zero-append_le rem xs ys h))
    | inr h ↦ elim (Bool-cases (all_zero xs)) [
      | inl z ↦ inr (
        receiving_eof (rem - length xs),
        ground (arith, zero_all rem xs h),
        ground arith,
        ground (arith, length-append xs ys, zero-append_lt rem xs ys h),
      )
      | inr z ↦ inl (ground (arith, zero_all rem xs h, zero-append_lt rem xs ys h))
    ]
  ]
  next-append received_eof xs ys = inl refl
