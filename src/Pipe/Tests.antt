-- ===== src/Pipe/Tests.antt =====
-- A test of tp-parte4/lib/pipe.c: one byte goes through a new pipe.
use sistemas_operativos_2c.Common.{ℕ, ◌≤◌, ◌≡◌, [], ◌∷◌, ◌++◌, length, take, update, false}
use sistemas_operativos_2c.Pipe.{
  Pipe, World, Reachable, read, read_test, read_byte, write_test, write_byte, devpipe_read,
  devpipe_write, reader_moves, writer_moves, read_call, write_call, start, next, new_pipe,
}
use sistemas_operativos_2c.Pipe.Fifo.{pipe_fifo}
use sistemas_operativos_2c.Pipe.Sound.{pending}

-- The pipe with the byte 65 in its first place, at given positions.
abbrev at : ℕ → ℕ → Pipe
at r w = record { p_rpos = r; p_wpos = w; p_buf = update (λ _. 0) 0 65 }

abbrev one_read : World
one_read = record {
  pipe = at 1 1;
  reader = read_test 1 (65 ∷ []);
  writer = write_test (65 ∷ []) 1;
  past_got = [];
  past_put = [];
}

one_read-Reachable : Reachable one_read
unfolding devpipe_read devpipe_write
one_read-Reachable =
    next _ _
      (next _ _
        (next _ _
          (next _ _
            (next _ _ (next _ _ start (write_call new_pipe.pipe (read 0 []) 0 [] 0 (65 ∷ []) [] []))
              (writer_moves false new_pipe.pipe (read 0 []) (write_test (65 ∷ []) 0) [] []))
            (writer_moves false (at 0 0) (read 0 []) (write_byte (65 ∷ []) 0 65) [] []))
          (read_call (at 0 1) 0 [] 1 (write_test (65 ∷ []) 1) [] []))
        (reader_moves false (at 0 1) (read_test 1 []) (write_test (65 ∷ []) 1) [] []))
      (reader_moves false (at 0 1) (read_byte 1 [] 65) (write_test (65 ∷ []) 1) [] [])

pipe_fifo_example :
    (([] ++ 65 ∷ []) ++ pending (at 1 1) ≡ [] ++ take 1 (65 ∷ []))
    × (length (pending (at 1 1)) ≤ 32)
pipe_fifo_example = pipe_fifo one_read one_read-Reachable
