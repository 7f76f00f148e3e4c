-- ===== src/Pipe.antt =====
-- tp-parte4/lib/pipe.c: devpipe_read and devpipe_write of two environments on the pipe they share. A
-- step is what happens between two accesses to the shared pipe, so that the environments may be
-- switched anywhere; `closed` is what _pipeisclosed answers, and a call that yields stays where it is.
-- Positions are taken below 2 ^ 31, where off_t does not wrap.
pub mod Sound
pub mod Fifo
mod Tests
use sistemas_operativos_2c.Common.{
  ℕ, ◌+◌, ◌%◌, Bool, Option, none, some, List, [], ◌∷◌, ◌++◌, length, get_elem?, take, update, ltb,
  leb, ◌==◌, if◌then◌else◌,
}

abbrev pub pipebufsiz : ℕ
pipebufsiz = 32

pub record Pipe : Type 0 where
  pub p_rpos : ℕ
  pub p_wpos : ℕ
  pub p_buf : ℕ → ℕ

-- Where a call of devpipe_read is: returned with a value and what it stored in the caller's buffer; before the test of the
-- loop, with the bytes of `buf` so far; or with one more byte to be in `buf`, before `p_rpos` counts it.
pub data Reader : Type 0 where
  read : (result : ℕ) (buf : List ℕ) → Reader
  read_test : (n : ℕ) (buf : List ℕ) → Reader
  read_byte : (n : ℕ) (buf : List ℕ) (byte : ℕ) → Reader

-- Likewise devpipe_write, which is at `buf[i]`, also where it has returned.
pub data Writer : Type 0 where
  wrote : (result : ℕ) (buf : List ℕ) (i : ℕ) → Writer
  write_test : (buf : List ℕ) (i : ℕ) → Writer
  write_byte : (buf : List ℕ) (i byte : ℕ) → Writer

pub devpipe_read : Bool → Pipe → Reader → Pipe × Reader
devpipe_read closed p (read r buf) = (p, read r buf)
devpipe_read closed p (read_test n buf) =
    if leb n (length buf)
    then (p, read (length buf) buf)
    else if p.p_rpos == p.p_wpos
    then if ltb 0 (length buf)
      then (p, read (length buf) buf)
      else if closed
      then (p, read 0 buf)
      else (p, read_test n buf)
    else (p, read_byte n buf (p.p_buf (p.p_rpos % pipebufsiz)))
devpipe_read closed p (read_byte n buf byte) =
    (record p { p_rpos = p.p_rpos + 1 }, read_test n (buf ++ byte ∷ []))

pub devpipe_write : Bool → Pipe → Writer → Pipe × Writer
devpipe_write closed p (wrote r buf i) = (p, wrote r buf i)
devpipe_write closed p (write_test buf i) = elim (get_elem? buf i) [
  | none ↦ (p, wrote i buf i)
  | some byte ↦
      if leb (p.p_rpos + pipebufsiz) p.p_wpos
      then if closed then (p, wrote 0 buf i) else (p, write_test buf i)
      else (record p { p_buf = update p.p_buf (p.p_wpos % pipebufsiz) byte }, write_byte buf i byte)
]
devpipe_write closed p (write_byte buf i byte) =
    (record p { p_wpos = p.p_wpos + 1 }, write_test buf (i + 1))

-- What a call of devpipe_read has stored in its buffer.
abbrev pub got : Reader → List ℕ
got (read result buf) = buf
got (read_test n buf) = buf
got (read_byte n buf byte) = buf

-- What a call of devpipe_write has put in the pipe: its buffer up to `i`.
abbrev pub put_of : Writer → List ℕ
put_of (wrote result buf i) = take i buf
put_of (write_test buf i) = take i buf
put_of (write_byte buf i byte) = take i buf

-- The pipe, the two calls, and what the calls before them got and put, one after the other.
pub record World : Type 0 where
  pub pipe : Pipe
  pub reader : Reader
  pub writer : Writer
  pub past_got : List ℕ
  pub past_put : List ℕ

-- A step of either environment, or a new call of one that has returned.
pub data Move : World → World → Type 0 where
  reader_moves :
      (closed : Bool) (p : Pipe) (r : Reader) (w : Writer) (past_got past_put : List ℕ)
      → Move
          (record { pipe = p; reader = r; writer = w; past_got = past_got; past_put = past_put })
          (record {
            pipe = (devpipe_read closed p r).0;
            reader = (devpipe_read closed p r).1;
            writer = w;
            past_got = past_got;
            past_put = past_put;
          })
  writer_moves :
      (closed : Bool) (p : Pipe) (r : Reader) (w : Writer) (past_got past_put : List ℕ)
      → Move
          (record { pipe = p; reader = r; writer = w; past_got = past_got; past_put = past_put })
          (record {
            pipe = (devpipe_write closed p w).0;
            reader = r;
            writer = (devpipe_write closed p w).1;
            past_got = past_got;
            past_put = past_put;
          })
  read_call :
      (p : Pipe) (result : ℕ) (buf : List ℕ) (n : ℕ) (w : Writer) (past_got past_put : List ℕ)
      → Move
          (record {
            pipe = p;
            reader = read result buf;
            writer = w;
            past_got = past_got;
            past_put = past_put;
          })
          (record {
            pipe = p;
            reader = read_test n [];
            writer = w;
            past_got = past_got ++ buf;
            past_put = past_put;
          })
  write_call :
      (p : Pipe) (r : Reader) (result : ℕ) (old : List ℕ) (i : ℕ) (buf : List ℕ)
      (past_got past_put : List ℕ)
      → Move
          (record {
            pipe = p;
            reader = r;
            writer = wrote result old i;
            past_got = past_got;
            past_put = past_put;
          })
          (record {
            pipe = p;
            reader = r;
            writer = write_test buf 0;
            past_got = past_got;
            past_put = past_put ++ take i old;
          })

-- A new pipe is a zeroed page.
abbrev pub new_pipe : World
new_pipe = record {
  pipe = record { p_rpos = 0; p_wpos = 0; p_buf = λ _. 0 };
  reader = read 0 [];
  writer = wrote 0 [] 0;
  past_got = [];
  past_put = [];
}

pub data Reachable : World → Type 0 where
  start : Reachable new_pipe
  next : (w w' : World) → Reachable w → Move w w' → Reachable w'
