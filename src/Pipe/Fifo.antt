-- ===== src/Pipe/Fifo.antt =====
-- What a reader gets from a pipe of tp-parte4/lib/pipe.c.
use sistemas_operativos_2c.Common.{
  append_assoc, ℕ, zero, suc, ◌+◌, ◌-◌, ◌≤◌, ◌≡◌, refl, Bool, List, [], ◌∷◌, ◌++◌, length,
  get_elem?, take, some, Option-cases, inl, inr, arith, ap, sym, ◌∙◌, subst,
}
use sistemas_operativos_2c.Pipe.{
  Pipe, Reader, Writer, World, Move, Reachable, read, read_test, read_byte, wrote, write_test,
  write_byte, devpipe_read, devpipe_write, got, put_of, reader_moves, writer_moves, read_call,
  write_call, start, next,
}
use sistemas_operativos_2c.Pipe.Sound.{
  bytes, counted_read, counted_write, WriteIsKept, pending, IsSound, append_nil, with_reader,
  with_writer, reader-IsSound, writer-IsSound,
}

-- What a call has got after a step of it.
got-devpipe_read :
    (closed : Bool) (p : Pipe) (r : Reader)
    → got (devpipe_read closed p r).1 ≡ got r ++ counted_read r
unfolding devpipe_read
got-devpipe_read closed p (read x buf) = sym (append_nil buf)
got-devpipe_read closed p (read_test n buf) = rw (append_nil buf) (ground arith)
got-devpipe_read closed p (read_byte n buf byte) = refl

take-next :
    (buf : List ℕ) (i byte : ℕ)
    → get_elem? buf i ≡ some byte
    → take (suc i) buf ≡ take i buf ++ byte ∷ []
take-next [] i byte e = absurd (ground arith)
take-next (x ∷ buf) zero byte e = ground arith
take-next (x ∷ buf) (suc i) byte e = ap (λ l. x ∷ l) (take-next buf i byte e)

-- What a call has put after a step of it.
put_of-devpipe_write :
    (closed : Bool) (p : Pipe) (w : Writer)
    → WriteIsKept p w
    → put_of (devpipe_write closed p w).1 ≡ put_of w ++ counted_write w
unfolding devpipe_write
put_of-devpipe_write closed p (wrote x buf i) kept = sym (append_nil (take i buf))
put_of-devpipe_write closed p (write_test buf i) kept =
    rw (append_nil (take i buf)) (elim (Option-cases (get_elem? buf i)) [
      | inl e ↦ rw (e, devpipe_write) refl
      | inr (byte, e) ↦ rw (e, devpipe_write) (ground arith)
    ])
put_of-devpipe_write closed p (write_byte buf i byte) kept =
    let follows : i + 1 ≡ suc i = omega arith in
    ap (λ k. take k buf) follows ∙ take-next buf i byte kept.0

abbrev Sound : World → Type 0
Sound x =
    IsSound x.pipe x.reader x.writer (x.past_got ++ got x.reader) (x.past_put ++ put_of x.writer)

Move-Sound : (x y : World) → Move x y → Sound x → Sound y
Move-Sound x y (reader_moves closed p r w past_got past_put) good =
    subst
      (λ l.
        IsSound (devpipe_read closed p r).0 (devpipe_read closed p r).1 w l (past_put ++ put_of w))
      (append_assoc past_got (got r) (counted_read r)
        ∙ ap (λ l. past_got ++ l) (sym (got-devpipe_read closed p r)))
      (reader-IsSound closed p r w (past_got ++ got r) (past_put ++ put_of w) good)
Move-Sound x y (writer_moves closed p r w past_got past_put) good =
    subst
      (λ l.
        IsSound (devpipe_write closed p w).0 r (devpipe_write closed p w).1 (past_got ++ got r) l)
      (append_assoc past_put (put_of w) (counted_write w)
        ∙ ap (λ l. past_put ++ l) (sym (put_of-devpipe_write closed p w good.writing)))
      (writer-IsSound closed p r w (past_got ++ got r) (past_put ++ put_of w) good)
Move-Sound x y (read_call p result buf n w past_got past_put) good =
    rw (append_nil (past_got ++ buf)) (
      with_reader p (read result buf) (read_test n []) w (past_got ++ buf) (past_put ++ put_of w)
        good tt)
Move-Sound x y (write_call p r result old i buf past_got past_put) good =
    rw (append_nil (past_put ++ take i old)) (
      with_writer p r (wrote result old i) (write_test buf 0) (past_got ++ got r)
        (past_put ++ take i old) good tt)

Reachable-Sound : (x : World) → Reachable x → Sound x
Reachable-Sound x start = record {
  ordered = omega arith;
  room = omega arith;
  fifo = refl;
  reading = tt;
  writing = tt;
}
Reachable-Sound x (next w y before move) = Move-Sound w y move (Reachable-Sound w before)

bytes-length : (c pos : ℕ) (buf : ℕ → ℕ) → length (bytes c pos buf) ≡ c
bytes-length zero pos buf = refl
bytes-length (suc c) pos buf = omega (arith, bytes-length c (pos + 1) buf)

-- Whatever the order of the steps of a reader and a writer of a new pipe, what the calls of devpipe_read stored in
-- their buffers, followed by the bytes in the pipe, is what the calls of devpipe_write took from theirs, each
-- from the start up to where it is or returned; and the pipe holds at most 32 bytes.
pub pipe_fifo :
    (x : World)
    → Reachable x
    → ((x.past_got ++ got x.reader) ++ pending x.pipe ≡ x.past_put ++ put_of x.writer)
      × (length (pending x.pipe) ≤ 32)
pipe_fifo x reached =
    let good = Reachable-Sound x reached in
    (
      good.fifo,
      omega (
        arith,
        bytes-length (x.pipe.p_wpos - x.pipe.p_rpos) x.pipe.p_rpos x.pipe.p_buf,
        good.ordered,
        good.room,
      ),
    )
