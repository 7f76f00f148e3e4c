-- ===== src/Descriptor/Tests.antt =====
-- A device that gives at most two bytes of its stream at a time, open at descriptor 0, with its data page.
use sistemas_operativos_2c.Common.{
  ℕ, zero, suc, ◌≡◌, ◌≢◌, ◌⊎◌, inl, inr, refl, min, none, some, List, [], ◌∷◌, length, take, drop,
  update, arith,
}
use sistemas_operativos_2c.Errors.{Outcome, ok}
use sistemas_operativos_2c.Fs.Server.{Fd}
use sistemas_operativos_2c.Descriptor.{
  Program, P, Dev, index2fd, index2data, fd_of, seek, dev_lookup, dup, readn,
}
use sistemas_operativos_2c.Descriptor.Pipes.{pipe}
use sistemas_operativos_2c.Descriptor.Pipes.Undo.{Made, pipe-Made}
use sistemas_operativos_2c.Descriptor.Sharing.{dup-seek, dup-beyond}
use sistemas_operativos_2c.Descriptor.Reading.{IsReadable, IsStream, readn-take}

abbrev open_fd : Fd
open_fd = record { fd_dev_id = b'f'; fd_offset = 0; fd_omode = 2; fd_file_id = 1024 }

abbrev program : Program (List ℕ)
program = record {
  mapped = update (update (λ _. none) 32 (some 8)) 0 (some 7);
  page_fd = λ _. open_fd;
  grant = λ _. ok tt;
  world = 1 ∷ 2 ∷ 3 ∷ 4 ∷ 5 ∷ [];
}

abbrev some_of : ℕ → List ℕ → ℕ
some_of n l = min (min n 2) (length l)

abbrev two_at_most : ℕ → ℕ → P (List ℕ) (Outcome (List ℕ))
two_at_most fd n s =
    (ok (take (some_of n s.world) s.world), record s { world = drop (some_of n s.world) s.world })

abbrev device : Dev (List ℕ)
device = record {
  dev_id = b'f';
  dev_read = some two_at_most;
  dev_write = none;
  dev_close = none;
  dev_stat = none;
  dev_trunc = none;
}

abbrev devices : List (Dev (List ℕ))
devices = device ∷ []

abbrev Ready : Program (List ℕ) → Type 0
Ready s = (s.mapped 0 ≡ some 7) × (s.page_fd 7 ≡ open_fd)

Ready-IsReadable : (s : Program (List ℕ)) → Ready s → IsReadable devices 0 two_at_most s
unfolding dev_lookup
Ready-IsReadable s ready = record {
  page = 7;
  dev = device;
  small = omega arith;
  there = ready.0;
  found = rw (fd_of, ready.0, ready.1) refl;
  mode = rw (fd_of, ready.0, ready.1) refl;
  reads_by = refl;
}

some_of-progress : (n : ℕ) (l : List ℕ) → (some_of n l ≢ 0) ⊎ ((n ≡ 0) ⊎ (l ≡ []))
some_of-progress zero l = inr (inl refl)
some_of-progress (suc n) [] = inr (inr refl)
some_of-progress (suc n) (x ∷ l) = inl (λ e. omega (arith, e))

two_at_most-IsStream : IsStream devices 0 two_at_most 100 Ready (λ s. s.world)
two_at_most-IsStream = record {
  readable = Ready-IsReadable;
  count = λ n s. some_of n s.world;
  after = λ n s. record s { world = drop (some_of n s.world) s.world };
  gives = λ n s h r. refl;
  leaves = λ n s h r. refl;
  stays = λ n s h r. r;
  bounded = λ n s r. omega arith;
  progress = λ n s r. some_of-progress n s.world;
}

readn-take_example :
    (s' : Program (List ℕ)) × (readn devices 0 4 program ≡ (ok (1 ∷ 2 ∷ 3 ∷ 4 ∷ []), s'))
    × (s'.world ≡ 5 ∷ [])
    × Ready s'
readn-take_example = readn-take devices 0 two_at_most-IsStream 4 program (refl, refl) (omega arith)

dup-seek_example :
    (s' : Program (List ℕ)) × (dup devices 0 1 program ≡ (ok 1, s'))
    × (seek 0 100 s' ≡ seek 1 100 s')
    × ((fd_of (index2fd 0) (seek 0 100 s').1).fd_offset ≡ 100)
    × ((fd_of (index2fd 1) (seek 0 100 s').1).fd_offset ≡ 100)
dup-seek_example =
    dup-seek devices 0 1 100 7 program (omega arith) (omega arith) refl refl refl refl

dup-beyond_example :
    (s' : Program (List ℕ)) × (dup devices 0 32 program ≡ (ok 32, s'))
    × (s'.mapped (index2data 0) ≡ some 7)
dup-beyond_example = dup-beyond devices 0 0 7 program (omega arith) (omega arith) refl refl refl

-- A program with no descriptor, and the pages that the kernel gives it.
abbrev nothing_open : Program (List ℕ)
nothing_open = record program { mapped = λ _. none }

abbrev next_page : Program (List ℕ) → ℕ
next_page s = elim (s.mapped 0) [
  | none ↦ 9
  | some p ↦ elim (s.mapped 1) [ none ↦ 10 | some q ↦ 11 ]
]

pipe-Made_example : Made nothing_open (pipe next_page nothing_open)
pipe-Made_example = pipe-Made next_page nothing_open (λ fd h e. refl)
