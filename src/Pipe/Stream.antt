-- ===== src/Pipe/Stream.antt =====
-- pipe.c: what goes into a pipe comes out of it, once, unchanged and in order.
use Prim.Native.Nat.{min}
use mathlib.Core.List.{append_assoc, append-nil, append_cancel_right}
use op_sys.Base.{
  Bool-cases, length, take, drop, length-append, take-append-drop, length-drop, ℕ, zero, suc, ◌+◌,
  ◌-◌, ◌≡◌, refl, sym, ap, ap₂, subst, ◌∙◌, ◌≢◌, inl, inr, Bool, not, ◌||◌, List, [], ◌∷◌, ◌++◌,
  append-nil, arith,
}
use op_sys.Pipe.{
  pipe_size, Pipe, is_full, is_empty, put, WriteResult, wrote, write_failed, write_sleeps,
  pipewrite, front, drop_front, read_loop, got, piperead,
}
use op_sys.Pipe.Contents.{
  held, contents, IsValid, length-stretch, full_iff, empty_iff, put-IsValid, contents-put,
  drop_front-IsValid, contents-drop_front,
}

-- What a call of `pipewrite` with these bytes leaves.
abbrev pub Writes : Pipe → List ℕ → WriteResult → Type 0
Writes p bs (wrote q) = IsValid q × (contents q ≡ contents p ++ bs)
Writes p bs (write_failed q) =
    IsValid q
    × (held q ≡ pipe_size)
    × ((rest : List ℕ) × (rest ≢ []) × (contents q ++ rest ≡ contents p ++ bs))
Writes p bs (write_sleeps q rest) =
    IsValid q × (held q ≡ pipe_size) × (rest ≢ []) × (contents q ++ rest ≡ contents p ++ bs)

Writes-put :
    (p : Pipe) (b : ℕ) (bs : List ℕ) (r : WriteResult)
    → contents (put p b) ≡ contents p ++ b ∷ []
    → Writes (put p b) bs r
    → Writes p (b ∷ bs) r
Writes-put p b bs (wrote q) e (v, h) = (v, h ∙ rw (e, append_assoc))
Writes-put p b bs (write_failed q) e (v, c, (rest, ne, h)) =
    (v, c, (rest, ne, h ∙ rw (e, append_assoc)))
Writes-put p b bs (write_sleeps q rest) e (v, c, ne, h) = (v, c, ne, h ∙ rw (e, append_assoc))

-- On a valid pipe `pipewrite` puts a prefix of its bytes behind what the pipe holds: all of them if
-- it returns their number, and otherwise as many as fit; it fails or sleeps only on a full pipe,
-- with bytes left.
pub pipewrite_lem :
    (killed : Bool) (bs : List ℕ) (p : Pipe) → IsValid p → Writes p bs (pipewrite killed p bs)
unfolding pipewrite
pipewrite_lem killed [] p v = (v, sym (append-nil (contents p)))
pipewrite_lem killed (b ∷ bs) p v = elim (Bool-cases (is_full p)) [
  | inl full ↦ elim (Bool-cases (not p.readopen || killed)) [
    | inl e ↦ rw (full, e) (v, (full_iff p v).0 full, (b ∷ bs, (ground arith), refl))
    | inr e ↦ rw (full, e) (v, (full_iff p v).0 full, (ground arith), refl)
  ]
  | inr room ↦ rw room (
      Writes-put p b bs (pipewrite killed (put p b) bs) (contents-put p b v room)
        (pipewrite_lem killed bs (put p b) (put-IsValid p b v room)))
]

-- On a valid pipe the copy loop of `piperead` takes the oldest bytes, as many as asked for or all
-- that there are, and leaves the pipe valid.
pub read_loop_lem :
    (n : ℕ) (p : Pipe)
    → IsValid p
    → IsValid (read_loop n p).1
      × (contents p ≡ (read_loop n p).0 ++ contents (read_loop n p).1)
      × (length (read_loop n p).0 ≡ min n (held p))
unfolding read_loop
read_loop_lem zero p v = (v, refl, omega arith)
read_loop_lem (suc n) p v = elim (Bool-cases (is_empty p)) [
  | inl e ↦ rw e (v, refl, ground (arith, (empty_iff p v).0 e))
  | inr e ↦ rw e (
      let (w, same, len) = read_loop_lem n (drop_front p) (drop_front-IsValid p v e) in
      (
        w,
        contents-drop_front p v e ∙ ap (λ l. front p ∷ l) same,
        ground (
          arith,
          len,
          ap length (contents-drop_front p v e),
          length-stretch p.bytes p.nread (held p),
          length-stretch p.bytes (drop_front p).nread (held (drop_front p)),
        ),
      ))
]

-- One turn of a writer or a reader: the bytes that go in, and those that come out. A write that
-- sleeps or fails has put the first of its bytes, as many as the pipe holds more than before.
pub data Turn (p : Pipe) : List ℕ → List ℕ → Pipe → Type 0 where
  writes :
      (killed : Bool) (bs : List ℕ) (q : Pipe) → pipewrite killed p bs ≡ wrote q → Turn p bs [] q
  fills :
      (killed : Bool) (bs rest : List ℕ) (q : Pipe)
      → pipewrite killed p (bs ++ rest) ≡ write_sleeps q rest
      → Turn p bs [] q
  fails :
      (killed : Bool) (bs rest : List ℕ) (q : Pipe)
      → pipewrite killed p (bs ++ rest) ≡ write_failed q
      → held q ≡ held p + length bs
      → Turn p bs [] q
  reads :
      (killed : Bool) (n : ℕ) (out : List ℕ) (q : Pipe)
      → piperead killed n p ≡ got out q
      → Turn p [] out q

-- Every write that fails on a valid pipe is such a turn.
failed-Turn :
    (killed : Bool) (bs : List ℕ) (p q : Pipe)
    → IsValid p
    → pipewrite killed p bs ≡ write_failed q
    → (ins : List ℕ) × Turn p ins [] q
failed-Turn killed bs p q v e =
    let w : Writes p bs (write_failed q) = subst (Writes p bs) e (pipewrite_lem killed bs p v) in
    let (rest, ne, same) = w.2 in
    let n : ℕ = held q - held p in
    let whole : take n bs ++ drop n bs ≡ bs = take-append-drop n bs in
    let sizes : held q + length rest ≡ held p + length bs = omega (
      arith,
      ap length same,
      length-append (contents q) rest,
      length-append (contents p) bs,
      length-stretch p.bytes p.nread (held p),
      length-stretch q.bytes q.nread (held q),
    ) in
    (
      take n bs,
      fails killed (take n bs) (drop n bs) q (ap (pipewrite killed p) whole ∙ e) (
          omega (
            arith,
            sizes,
            w.1,
            v,
            ap length whole,
            length-append (take n bs) (drop n bs),
            length-drop n bs,
          )),
    )

pub data Turns (p : Pipe) : List ℕ → List ℕ → Pipe → Type 0 where
  here : Turns p [] [] p
  next :
      {ins outs : List ℕ} {q : Pipe} (in' out' : List ℕ) (r : Pipe)
      → Turns p ins outs q
      → Turn q in' out' r
      → Turns p (ins ++ in') (outs ++ out') r

piperead-got :
    (killed : Bool) (n : ℕ) (p : Pipe) (out : List ℕ) (q : Pipe)
    → piperead killed n p ≡ got out q
    → (out ≡ (read_loop n p).0) × (q ≡ (read_loop n p).1)
unfolding piperead
piperead-got killed n p out q e = (ground arith, ground arith)

append_prefix : (xs r ys s : List ℕ) → xs ++ r ≡ ys ++ s → length xs ≡ length ys → xs ≡ ys
append_prefix [] r [] s e n = refl
append_prefix [] r (y ∷ ys) s e n = absurd (omega (arith, n))
append_prefix (x ∷ xs) r [] s e n = absurd (omega (arith, n))
append_prefix (x ∷ xs) r (y ∷ ys) s e n =
    let inj : (x ≡ y) × (xs ++ r ≡ ys ++ s) = ground (arith, e) in
    ap₂ ◌∷◌ inj.0 (append_prefix xs r ys s inj.1 (omega (arith, n)))

Turn-fifo :
    {p q : Pipe} {ins outs : List ℕ}
    → IsValid p
    → Turn p ins outs q
    → IsValid q × (contents p ++ ins ≡ outs ++ contents q)
Turn-fifo {p} v (writes killed bs q e) =
    let w : Writes p bs (wrote q) = subst (Writes p bs) e (pipewrite_lem killed bs p v) in
    (w.0, sym w.1)
Turn-fifo {p} v (fills killed bs rest q e) =
    let w : Writes p (bs ++ rest) (write_sleeps q rest) =
      subst (Writes p (bs ++ rest)) e (pipewrite_lem killed (bs ++ rest) p v) in
    (
      w.0,
      sym (
          append_cancel_right (contents q) (contents p ++ bs) rest
            (w.3 ∙ sym (append_assoc (contents p) bs rest))),
    )
Turn-fifo {p} v (fails killed bs rest q e n) =
    let w : Writes p (bs ++ rest) (write_failed q) =
      subst (Writes p (bs ++ rest)) e (pipewrite_lem killed (bs ++ rest) p v) in
    let (left, ne, same) = w.2 in
    (
      w.0,
      sym (
          append_prefix (contents q) left (contents p ++ bs) rest
            (same ∙ sym (append_assoc (contents p) bs rest))
            (ground (
              arith,
              n,
              length-append (contents p) bs,
              length-stretch p.bytes p.nread (held p),
              length-stretch q.bytes q.nread (held q),
            ))),
    )
Turn-fifo {p} v (reads killed n out q e) =
    let w = read_loop_lem n p v in
    let (eo, eq) = piperead-got killed n p out q e in
    (
      subst IsValid (sym eq) w.0,
      append-nil (contents p) ∙ w.1 ∙ ap₂ ◌++◌ (sym eo) (ap contents (sym eq)),
    )

-- A valid pipe is first in, first out: after any turns of writers, whether they return, sleep or fail,
-- and of readers it is valid, and the bytes that it held and then those that went in are those that
-- came out and then those that it holds now.
pub Turns-fifo :
    {p q : Pipe} {ins outs : List ℕ}
    → IsValid p
    → Turns p ins outs q
    → IsValid q × (contents p ++ ins ≡ outs ++ contents q)
Turns-fifo {p} v here = (v, append-nil (contents p))
Turns-fifo {p} v (next {ins} {outs} {q} in' out' r ts t) =
    let (w, e) = Turns-fifo v ts in
    let (u, f) = Turn-fifo w t in
    (
      u,
      sym (append_assoc (contents p) ins in')
          ∙ ap (λ l. l ++ in') e
          ∙ append_assoc outs (contents q) in'
          ∙ ap (λ l. outs ++ l) f
          ∙ sym (append_assoc outs out' (contents r)),
    )
