-- ===== src/File/Tests.antt =====
-- A program that has opened the root directory's file of Fs.Server.Sample at descriptor 0, and one that has nothing open.
use sistemas_operativos_2c.Common.{
  ℕ, zero, suc, ◌<◌, ◌≤◌, ◌≡◌, refl, Option, none, some, List, [], ◌∷◌, update, arith,
}
use sistemas_operativos_2c.Errors.{inval, max_open, Outcome, ok, err}
use sistemas_operativos_2c.Fs.Content.Layout.{bytes_from}
use sistemas_operativos_2c.Text.{strcpy}
use sistemas_operativos_2c.Fs.Server.{Server, Fd, empty_fd}
use sistemas_operativos_2c.Fs.Server.Handlers.{serve_turn}
use sistemas_operativos_2c.Fs.Server.Sample.{
  server, server-IsTable, blk, contents, disk-Represents, root_opens, opened,
}
use sistemas_operativos_2c.Descriptor.{Program, Stat, fd_alloc, fstat, seek, write, readn}
use sistemas_operativos_2c.File.{
  ServedBy, seen_by, devfile, devfile_stat, devfile_trunc, devfile_flush, sync, open_path, stat,
}
use sistemas_operativos_2c.File.Device.{IsFile}
use sistemas_operativos_2c.File.Stored.{write-readn}
use sistemas_operativos_2c.File.Open.{CanOpen, open_path-readn}

abbrev root_fd : Fd
root_fd = record { fd_dev_id = b'f'; fd_offset = 0; fd_omode = 2; fd_file_id = 1025 }

abbrev opener : Program ServedBy
opener = record {
  mapped = update (λ _. none) 0 (some 1);
  page_fd = update (λ _. empty_fd) 1 root_fd;
  grant = λ _. ok tt;
  world = some opened;
}

opener-IsFile : IsFile 0 1025 2 (1, 2) 1 blk contents 0 opener
opener-IsFile = record {
  server = opened;
  running = refl;
  there = refl;
  own = refl;
  dev = refl;
  omode = refl;
  is_open = record {
    mapped = omega arith;
    named = refl;
    file = refl;
    at = refl;
    contents = disk-Represents;
  };
}

abbrev bytes : List ℕ
bytes = 10 ∷ 20 ∷ 30 ∷ []

write-readn_example :
    (s₁ s₂ s₃ : Program ServedBy) × (write (devfile ∷ []) 0 bytes opener ≡ (ok 3, s₁))
    × (seek 0 0 s₁ ≡ (ok 0, s₂))
    × (readn (devfile ∷ []) 0 3 s₂ ≡ (ok bytes, s₃))
write-readn_example =
    write-readn [] 0 1025 2 1 2 1 blk (omega arith) (omega arith) contents 0 bytes opener refl refl
      (omega arith) (omega arith) opener-IsFile

abbrev beginner : Program ServedBy
beginner = record {
  mapped = λ _. none;
  page_fd = λ _. empty_fd;
  grant = λ _. ok tt;
  world = some server;
}

abbrev seen : Server
seen = seen_by beginner server

seen-busy : (j : ℕ) → j < 1 → 2 ≤ seen.pageref j
seen-busy zero h = omega arith
seen-busy (suc j) h = absurd (omega arith)

root-CanOpen : CanOpen [] 1 (1, 2) 1 blk contents seen
root-CanOpen = record {
  table = server-IsTable;
  entry = omega arith;
  busy = seen-busy;
  free = omega arith;
  granted = refl;
  id = omega arith;
  opens = root_opens;
  contents = disk-Represents;
}

open_path-readn_example :
    (s₁ s₂ : Program ServedBy) × (open_path (devfile ∷ []) [] 0 beginner ≡ (ok 0, s₁))
    × (readn (devfile ∷ []) 0 10 s₁ ≡ (ok (bytes_from contents.byte 0 10), s₂))
    × IsFile 0 1025 0 (1, 2) 1 blk contents 10 s₂
open_path-readn_example =
    open_path-readn [] [] 0 0 1 10 1 2 1 blk contents beginner server refl root-CanOpen tt
      (omega arith) (omega arith) refl refl refl (omega arith) (λ j h. absurd (omega arith)) refl
      refl (omega arith)

-- What fstat gives.
abbrev size_of : Outcome Stat × Program ServedBy → Option ℕ
size_of (err e, s) = none
size_of (ok st, s) = some (st.st_size)

sized : size_of (fstat (devfile ∷ []) 0 opener) ≡ some 4096
unfolding fstat devfile devfile_stat serve_turn strcpy
sized = refl

-- The entry of the descriptor has another id by now.
abbrev stale : Program ServedBy
stale = record opener { page_fd = update (λ _. empty_fd) 1 (record root_fd { fd_file_id = 1 }) }

trunc_stale : (devfile_trunc 0 100 stale).0 ≡ err inval
unfolding devfile_trunc serve_turn
trunc_stale = refl

flush_stale : (devfile_flush 0 stale).0 ≡ err inval
unfolding devfile_flush serve_turn
flush_stale = refl

synced : (sync opener).0 ≡ ok 0
unfolding sync serve_turn
synced = refl

-- No descriptor is free.
abbrev full : Program ServedBy
full = record beginner { mapped = λ _. some 1 }

none_free : (stat (devfile ∷ []) [] full).0 ≡ err max_open
unfolding stat open_path fd_alloc
none_free = refl
