-- ===== src/State/Until.antt =====
-- The loop of `State::take_until`, and one round of it.
use tario.Prelude.{
  false, ◌⊎◌, true, sym, ◌∙◌, ap, Bool-cases, ℕ, zero, suc, ◌+◌, ◌*◌, ◌<◌, ◌≡◌, ◌≢◌, refl, inl, inr,
  ◌||◌, Option, List, arith, ◌==◌, if◌then◌else◌, length, drop, is_empty, length-drop,
}
use native.Mathlib.Nat.{zero-add}
use tario.Io.Result.{slice_from_lem, Result, ok, err, panic, ◌>>=◌, Result-cases, no_fuel}
use tario.Block.{Header, Tar}
use tario.State.{
  State, expecting_header, receiving_header, received_header, receiving_data, received_data,
  aligning_data, aligned_data, receiving_eof, received_eof, next, contains, take_until,
  take_until_loop, enough,
}
use tario.State.Next.{shift, next-le-length}

-- How many transitions may pass before one reads a byte.
abbrev pub rank : State → ℕ
rank expecting_header = 3
rank (receiving_header rem _) = if rem == 0 then 9 else 2
rank received_header = 8
rank (receiving_data _) = 7
rank received_data = 6
rank (aligning_data _) = 5
rank aligned_data = 4
rank (receiving_eof _) = 1
rank received_eof = 0

rank_lt : (s : State) → rank s < 10
rank_lt expecting_header = omega arith
rank_lt (receiving_header rem z) = ground arith
rank_lt _ = omega arith

abbrev pub measure : State → List ℕ → ℕ
measure s buf = 10 * length buf + rank s

pub shift-shift : (a b : ℕ) (r : Result (State × ℕ)) → shift a (shift b r) ≡ shift (a + b) r
shift-shift a b (ok (t, n)) = ground arith
shift-shift a b (err e) = refl
shift-shift a b (panic p) = refl

pub shift-zero : (r : Result (State × ℕ)) → shift 0 r ≡ r
shift-zero (ok (t, n)) = ground arith
shift-zero (err e) = refl
shift-zero (panic p) = refl

-- What the loop does after a transition, with the run that would follow.
abbrev pub bind-Goes : List State → List ℕ → State × ℕ → Result (State × ℕ) → Result (State × ℕ)
bind-Goes stop buf (t, n) later =
    if contains stop t || is_empty (drop n buf) then ok (t, n) else shift n later

module _ (tar : Tar) (hdr : Option Header) where
  -- On a buffer that is not empty each transition reads a byte or lowers the rank.
  pub next-measure :
      (s : State) (buf : List ℕ) {t : State} {n : ℕ}
      → next tar s buf hdr ≡ ok (t, n)
      → 0 < length buf
      → measure t (drop n buf) < measure s buf
  unfolding next
  next-measure expecting_header buf {n = n} e h = ground (arith, length-drop n buf)
  next-measure (receiving_header rem z) buf {n = n} e h = ground (arith, length-drop n buf)
  next-measure received_header buf {n = n} e h = ground (arith, length-drop n buf)
  next-measure (receiving_data rem) buf {n = n} e h = ground (arith, length-drop n buf)
  next-measure received_data buf {n = n} e h = ground (arith, length-drop n buf)
  next-measure (aligning_data rem) buf {n = n} e h = ground (arith, length-drop n buf)
  next-measure aligned_data buf {n = n} e h = ground (arith, length-drop n buf)
  next-measure (receiving_eof rem) buf {n = n} e h = ground (arith, length-drop n buf)
  next-measure received_eof buf {n = n} e h = ground (arith, length-drop n buf)

  loop-cur :
      (fuel : ℕ) (stop : List State) (s : State) (cur : ℕ) (buf : List ℕ)
      → take_until_loop tar fuel stop s cur buf hdr
        ≡ shift cur (take_until_loop tar fuel stop s 0 buf hdr)
  unfolding take_until_loop
  loop-cur zero stop s cur buf = refl
  loop-cur (suc f) stop s cur buf = elim (Result-cases (next tar s buf hdr)) [
    | inl ((t, n), e) ↦ ground (
      arith,
      e,
      next-le-length tar hdr s buf e,
      loop-cur f stop t (cur + n) (drop n buf),
      loop-cur f stop t (0 + n) (drop n buf),
      shift-shift cur (0 + n) (take_until_loop tar f stop t 0 (drop n buf) hdr),
    )
    | inr (inl (x, e)) ↦ ground arith
    | inr (inr (p, e)) ↦ ground arith
  ]

  loop-fuel :
      (f g : ℕ) (stop : List State) (s : State) (cur : ℕ) (buf : List ℕ)
      → measure s buf < f
      → measure s buf < g
      → take_until_loop tar f stop s cur buf hdr ≡ take_until_loop tar g stop s cur buf hdr
  unfolding take_until_loop
  loop-fuel zero g stop s cur buf hf hg = absurd (omega arith)
  loop-fuel (suc f) zero stop s cur buf hf hg = absurd (omega arith)
  loop-fuel (suc f) (suc g) stop s cur buf hf hg = elim (Result-cases (next tar s buf hdr)) [
    | inl ((t, n), e) ↦ ground (
      arith,
      next-le-length tar hdr s buf e,
      next-measure s buf e,
      length-drop n buf,
      loop-fuel f g stop t (cur + n) (drop n buf),
    )
    | inr (inl (x, e)) ↦ ground arith
    | inr (inr (p, e)) ↦ ground arith
  ]

  -- The rounds after the first, as a run of their own.
  loop_later :
      (f n : ℕ) (stop : List State) (t : State) (rest : List ℕ)
      → measure t rest < f
      → take_until_loop tar f stop t (0 + n) rest hdr ≡ shift n (take_until tar t stop rest hdr)
  unfolding take_until
  loop_later f n stop t rest h =
      rw (zero-add, loop-cur f stop t n rest)
        (ap (shift n) (loop-fuel f (enough rest) stop t 0 rest h (omega (arith, rank_lt t))))

  loop-step :
      (f : ℕ) (stop : List State) (s : State) (buf : List ℕ)
      → measure s buf < suc f
      → take_until_loop tar (suc f) stop s 0 buf hdr ≡ (
          next tar s buf hdr >>= λ r.
          bind-Goes stop buf r (take_until tar r.0 stop (drop r.1 buf) hdr))
  unfolding take_until_loop
  loop-step f stop s buf h = elim (Result-cases (next tar s buf hdr)) [
    | inl ((t, n), e) ↦
        rw (e, slice_from_lem buf n (next-le-length tar hdr s buf e))
          (elim (Bool-cases (contains stop t || is_empty (drop n buf))) [
            | inl done ↦ rw (done, zero-add)
            | inr more ↦ rw more (
                loop_later f n stop t (drop n buf)
                  (ground (arith, next-measure s buf e, length-drop n buf)))
          ])
    | inr (inl (x, e)) ↦ rw e
    | inr (inr (p, e)) ↦ rw e
  ]

  -- `take_until` is one transition, and then itself on what is left, unless it is done.
  pub take_until-step :
      (stop : List State) (s : State) (buf : List ℕ)
      → take_until tar s stop buf hdr ≡ (
          next tar s buf hdr >>= λ r.
          bind-Goes stop buf r (take_until tar r.0 stop (drop r.1 buf) hdr))
  unfolding take_until
  take_until-step stop s buf =
      let more : enough buf ≡ suc (10 * length buf + 9) = omega arith in
      rw more (loop-step (10 * length buf + 9) stop s buf (omega (arith, rank_lt s)))

  pub shift-eq-ok :
      (k : ℕ) (r : Result (State × ℕ)) {t : State} {n : ℕ}
      → shift k r ≡ ok (t, n)
      → (b : ℕ) × (r ≡ ok (t, b)) × (k + b ≡ n)
  shift-eq-ok k (ok (u, b)) e = (b, ground arith, ground arith)
  shift-eq-ok k (err x) e = cc
  shift-eq-ok k (panic p) e = cc

  -- A run that succeeds is one transition, or a transition that goes on with a shorter run.
  pub take_until-cases :
      (stop : List State) (s : State) (buf : List ℕ) {t : State} {n : ℕ}
      → take_until tar s stop buf hdr ≡ ok (t, n)
      → ((next tar s buf hdr ≡ ok (t, n)) × ((contains stop t || is_empty (drop n buf)) ≡ true))
        ⊎ ((u : State) × (a : ℕ) × (b : ℕ) × (next tar s buf hdr ≡ ok (u, a))
            × (is_empty (drop a buf) ≡ false)
            × (take_until tar u stop (drop a buf) hdr ≡ ok (t, b))
            × (a + b ≡ n))
  take_until-cases stop s buf {t} {n} e =
      let whole = sym (take_until-step stop s buf) ∙ e in
      elim (Result-cases (next tar s buf hdr)) [
        | inl ((u, a), e') ↦ elim (Bool-cases (contains stop u || is_empty (drop a buf))) [
          | inl done ↦
              let ended : ok (u, a) ≡ ok (t, n) = rw (e', done) at whole in
              inl (e' ∙ ended, ground (arith, ended))
          | inr more ↦
              let later : shift a (take_until tar u stop (drop a buf) hdr) ≡ ok (t, n) =
                rw (e', more) at whole in
              let (b, run, count) = shift-eq-ok a (take_until tar u stop (drop a buf) hdr) later in
              inr (u, a, b, e', ground arith, run, count)
        ]
        | inr (inl (x, e')) ↦ absurd (ground (arith, whole))
        | inr (inr (p, e')) ↦ absurd (ground (arith, whole))
      ]

  next-ne-no_fuel : (s : State) (buf : List ℕ) → next tar s buf hdr ≢ panic no_fuel
  unfolding next
  next-ne-no_fuel expecting_header buf e = ground arith
  next-ne-no_fuel (receiving_header rem z) buf e = ground arith
  next-ne-no_fuel received_header buf e = ground arith
  next-ne-no_fuel (receiving_data rem) buf e = ground arith
  next-ne-no_fuel received_data buf e = ground arith
  next-ne-no_fuel (aligning_data rem) buf e = ground arith
  next-ne-no_fuel aligned_data buf e = ground arith
  next-ne-no_fuel (receiving_eof rem) buf e = ground arith
  next-ne-no_fuel received_eof buf e = ground arith

  loop-ne-no_fuel :
      (f : ℕ) (stop : List State) (s : State) (cur : ℕ) (buf : List ℕ)
      → measure s buf < f
      → take_until_loop tar f stop s cur buf hdr ≢ panic no_fuel
  unfolding take_until_loop
  loop-ne-no_fuel zero stop s cur buf h = absurd (omega arith)
  loop-ne-no_fuel (suc f) stop s cur buf h = elim (Result-cases (next tar s buf hdr)) [
    | inl ((t, n), e) ↦ ground (
      arith,
      next-le-length tar hdr s buf e,
      next-measure s buf e,
      length-drop n buf,
      loop-ne-no_fuel f stop t (cur + n) (drop n buf),
    )
    | inr (inl (x, e)) ↦ ground arith
    | inr (inr (p, e)) ↦ ground (arith, next-ne-no_fuel s buf)
  ]

  -- The loop of `take_until` always ends: the fuel that the model gives it is enough, from every
  -- state, on every buffer and for every set of stop states.
  pub take_until-ne-no_fuel :
      (stop : List State) (s : State) (buf : List ℕ) → take_until tar s stop buf hdr ≢ panic no_fuel
  unfolding take_until
  take_until-ne-no_fuel stop s buf =
      loop-ne-no_fuel (enough buf) stop s 0 buf (omega (arith, rank_lt s))
