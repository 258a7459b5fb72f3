-- ===== src/File/Chunks.antt =====
-- file.c: the chunks in which `filewrite` writes to an inode with the `writei` of fs.c.
use op_sys.Base.{
  ==_self, length, take, drop, length-append, take-append-drop, length-drop, ℕ, zero, suc, ◌+◌, ◌≤◌,
  ◌≡◌, refl, sym, ap, subst, ◌∙◌, true, false, List, [], ◌∷◌, ◌++◌, arith,
}
use op_sys.File.{
  fd_inode, File, max_chunk, all_written, after_writei, filewrite_loop, refused, on_inode, by_type,
  filewrite,
}
use op_sys.File.Writei.{max_size, Content, writei, IsPut-append, IsWritten, writei-IsWritten}

IsWritten-append :
    (off : ℕ) (xs ys : List ℕ) (c c' c'' : Content)
    → off ≤ c.size
    → IsWritten off xs c c'
    → IsWritten (off + length xs) ys c' c''
    → IsWritten off (xs ++ ys) c c''
IsWritten-append off xs ys c c' c'' h (p, s) (q, t) = (
  IsPut-append off xs ys c.blocks c'.blocks c''.blocks p q,
  ground (arith, s, t, length-append xs ys, h),
)

filewrite_loop_lem :
    (fuel : ℕ) (c : Content) (off : ℕ) (bs : List ℕ)
    → length bs ≤ fuel
    → off ≤ c.size
    → off + length bs ≤ max_size
    → (c' : Content) × (filewrite_loop writei fuel c off bs ≡ all_written c' (off + length bs))
      × IsWritten off bs c c'
unfolding filewrite_loop after_writei
filewrite_loop_lem fuel c off [] h l m =
    (c, ap (all_written c) (omega arith), ((λ k. ground arith), ground (arith, l)))
filewrite_loop_lem zero c off (b ∷ bs) h l m = absurd (omega (arith, h))
filewrite_loop_lem (suc fuel) c off (b ∷ bs) h l m =
    let first : List ℕ = take max_chunk (b ∷ bs) in
    let rest : List ℕ = drop max_chunk (b ∷ bs) in
    let whole : first ++ rest ≡ b ∷ bs = take-append-drop max_chunk (b ∷ bs) in
    let len = ap length (sym whole) ∙ length-append first rest in
    let (c1, e1, w1) = writei-IsWritten c off first l (omega (arith, m, len)) in
    let (c2, e2, w2) =
      filewrite_loop_lem fuel c1 (off + length first) rest
        (omega (arith, h, length-drop max_chunk (b ∷ bs))) (ground (arith, w1.1, l))
        (omega (arith, m, len)) in
    (
      c2,
      rw (e1, ==_self (length first)) (e2 ∙ ap (all_written c2) (omega (arith, len))),
      subst (λ xs. IsWritten off xs c c2) whole (IsWritten-append off first rest c c1 c2 l w1 w2),
    )

-- `filewrite` to an inode that is no device, on a disk with enough free blocks, at an offset that is in
-- the file or at its end, of bytes that end before `MAXFILE` blocks: on a file that is not writable
-- it fails; and otherwise it writes all the bytes, whatever the number of chunks, and moves the
-- offset behind them. Then the bytes stand in the file from the old offset on, every other byte is
-- as it was, and the size has grown to the new offset if that is larger.
pub filewrite_lem :
    (c : Content) (f : File) (bs : List ℕ)
    → f.type ≡ fd_inode
    → f.off ≤ c.size
    → f.off + length bs ≤ max_size
    → (f.writable ≡ false → filewrite writei c f bs ≡ refused)
      × (f.writable ≡ true
          → (c' : Content) × (filewrite writei c f bs
              ≡ on_inode (all_written c' (f.off + length bs)))
            × IsWritten f.off bs c c')
unfolding filewrite by_type
filewrite_lem c f bs e l m =
    let (c', r, w) = filewrite_loop_lem (length bs) c f.off bs (omega arith) l m in
    (λ no_write. rw no_write refl, λ writable. (c', rw (writable, e, r) refl, w))
