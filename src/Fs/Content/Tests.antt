-- ===== src/Fs/Content/Tests.antt =====
-- Reads and writes of a file of two blocks, the second one block 9 and the first one block 8.
use sistemas_operativos_2c.Common.{
  ℕ, zero, suc, ◌+◌, ◌<◌, ◌≡◌, refl, false, some, List, [], ◌∷◌, update, arith, All,
}
use sistemas_operativos_2c.Fs.{Store}
use sistemas_operativos_2c.Fs.Content.Layout.{IsLaidOut, content}
use sistemas_operativos_2c.Fs.Content.Refinement.{
  Contents, Call, Represents, IsInside, read, write, answers, after_all, calls, file_calls-refine,
}

abbrev words : ℕ → ℕ → ℕ
words =
    update (update (λ _ _. 0x04030201) 1 (update (λ _. 0) 1 64)) 3
      (update (update (update (λ _. 0) 32 5000) 34 8) 35 9)

abbrev store : Store
store = record { word = words; dirty = λ _. false; disk = words }

abbrev blk : ℕ → ℕ
blk i = i + 8

two_slots : (i : ℕ) → i < 2 → words 3 (0 + 34 + i) ≡ blk i
two_slots zero h = refl
two_slots (suc zero) h = refl
two_slots (suc (suc i)) h = absurd (omega arith)

store-IsLaidOut : IsLaidOut (3, 0) 2 blk store
store-IsLaidOut = record {
  direct = omega arith;
  slots = two_slots;
  real = λ i h. omega arith;
  apart = λ i h. omega arith;
  different = λ i j h k e. omega arith;
}

abbrev contents : Contents
contents = record { size = 5000; byte = content 2 blk store }

store-Represents : Represents (3, 0) 2 blk contents store
store-Represents = record {
  laid = store-IsLaidOut;
  sized = refl;
  room = omega arith;
  bytes = λ q. refl;
}

-- A write over the end of the first block, and two reads of it.
abbrev requests : List Call
requests = write (10 ∷ 20 ∷ 30 ∷ []) 4094 ∷ read 4 4093 ∷ read 100 4990 ∷ []

requests-AreInside : All (IsInside 5000) requests
requests-AreInside = omega arith

file_calls-refine_example :
    (d' : Store) × (calls (3, 0) requests store ≡ some (answers contents requests, d'))
    × Represents (3, 0) 2 blk (after_all contents requests) d'
file_calls-refine_example =
    file_calls-refine contents requests store store-Represents requests-AreInside
