-- ===== src/Spool/Tests.antt =====
-- A small spool of numbers.
use cypress.Base.{ℕ, ◌≡◌, ◌≤◌, ◌<◌, refl, false, List, [], ◌∷◌, ◌++◌, length, arith}
use cypress.Spool.{
  File, Spool, SpoolGenerator, put_file, prune_old_files, prune_scan, remove_file, rotate, receive,
  flush, generator, generate,
}
use cypress.Spool.Rotation.{archive, contents, Rising, receive-contents}
use cypress.Spool.Generating.{Gives, generate-Gives}
use cypress.Spool.Reading.{drain, drain-contents}

abbrev two_files : Spool ℕ
two_files = record {
  per_file_size = 10;
  max_files = 2;
  files =
      record { stamp = 1; messages = 11 ∷ 12 ∷ [] } ∷ record { stamp = 4; messages = 13 ∷ [] } ∷ [];
  current = [];
  held = 14 ∷ [];
  start_size = 0;
  encoded = 6;
}

-- The fifth message fills the current file, and the oldest file goes.
rotated : contents (receive 7 5 1 15 two_files) ≡ 13 ∷ 14 ∷ 15 ∷ []
unfolding receive rotate flush prune_old_files prune_scan remove_file put_file
rotated = refl

receive-contents_example :
    (dropped : List (File ℕ)) × (contents two_files ++ 15 ∷ []
      ≡ archive dropped ++ contents (receive 7 5 1 15 two_files))
    × (length dropped ≤ 1)
    × (length two_files.files < 2 → dropped ≡ [])
    × (length two_files.files ≤ 2 → length (receive 7 5 1 15 two_files).files ≤ 2)
    × Rising (receive 7 5 1 15 two_files).files
receive-contents_example =
    receive-contents 7 5 1 15 two_files ((omega arith, tt), (tt, tt))
      (omega arith, (omega arith, tt))

-- Before it is flushed, the last message is not on the disk.
not_flushed : (generator two_files).files ≡ (11 ∷ 12 ∷ []) ∷ (13 ∷ []) ∷ [] ∷ []
unfolding generator
not_flushed = refl

drain-contents_example : drain 9 3 (generator (flush two_files)) ≡ 11 ∷ 12 ∷ 13 ∷ 14 ∷ []
drain-contents_example = drain-contents two_files 9 3 (omega arith) (omega arith)

-- The second file is read through, the third one is not.
abbrev half_read : SpoolGenerator ℕ
half_read = record { closed = false; files = (1 ∷ []) ∷ [] ∷ (2 ∷ []) ∷ []; current = 1; dec = [] }

generate-Gives_example : Gives half_read (generate 2 half_read)
generate-Gives_example = generate-Gives 2 half_read (refl, omega arith) (omega arith)
