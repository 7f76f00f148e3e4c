-- ===== src/Fs/Server/Sample.antt =====
-- A server for the tests: the root directory's file has one block, block 4, and the page of entry 0 is in use.
use sistemas_operativos_2c.Common.{
  ℕ, zero, suc, ◌+◌, ◌<◌, ◌≤◌, ◌≡◌, refl, false, none, some, [], update, arith,
}
use sistemas_operativos_2c.Errors.{ok}
use sistemas_operativos_2c.Fs.{Store}
use sistemas_operativos_2c.Fs.Content.Layout.{IsLaidOut, content}
use sistemas_operativos_2c.Fs.Content.Refinement.{Contents, Represents}
use sistemas_operativos_2c.Fs.Dir.{file_open}
use sistemas_operativos_2c.Fs.Server.{Server, empty_fd}
use sistemas_operativos_2c.Fs.Server.Keeps.{IsTable}
use sistemas_operativos_2c.Fs.Server.Requests.{IsOpen}

abbrev pub words : ℕ → ℕ → ℕ
words = update (λ _ _. 0) 1 (update (update (update (update (λ _. 0) 1 64) 34 4096) 35 1) 36 4)

abbrev pub disk : Store
disk = record { word = words; dirty = λ _. false; disk = words }

abbrev pub server : Server
server = record {
  cache = disk;
  opentab = λ i. record { o_fileid = i; o_file = none; o_mode = 1 };
  o_fd = λ _. empty_fd;
  pageref = update (λ _. 0) 0 2;
  grant = λ _. ok tt;
  fsreq = λ _. 0;
}

pub server-IsTable : IsTable server
server-IsTable i h = omega arith

pub busy : (j : ℕ) → j < 1 → 2 ≤ server.pageref j
busy zero h = omega arith
busy (suc j) h = absurd (omega arith)

abbrev pub blk : ℕ → ℕ
blk i = i + 4

pub one_slot : (i : ℕ) → i < 1 → words 1 (2 + 34 + i) ≡ blk i
one_slot zero h = refl
one_slot (suc i) h = absurd (omega arith)

pub disk-IsLaidOut : IsLaidOut (1, 2) 1 blk disk
disk-IsLaidOut = record {
  direct = omega arith;
  slots = one_slot;
  real = λ i h. omega arith;
  apart = λ i h. omega arith;
  different = λ i j h k e. omega arith;
}

abbrev pub contents : Contents
contents = record { size = 4096; byte = content 1 blk disk }

pub disk-Represents : Represents (1, 2) 1 blk contents disk
disk-Represents = record {
  laid = disk-IsLaidOut;
  sized = refl;
  room = omega arith;
  bytes = λ q. refl;
}

pub root_opens : file_open [] disk ≡ some (ok (1, 2), disk)
unfolding file_open
root_opens = refl

abbrev pub opened : Server
opened = record server {
  opentab = λ i. record { o_fileid = 1024 + i; o_file = some (1, 2); o_mode = 0 };
  pageref = λ _. 2;
}

pub opened-IsOpen : IsOpen 1025 (1, 2) 1 blk contents 0 opened
opened-IsOpen = record {
  mapped = omega arith;
  named = refl;
  file = refl;
  at = refl;
  contents = disk-Represents;
}
