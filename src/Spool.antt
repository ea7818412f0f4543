-- ===== src/Spool.antt =====
-- plugins/spool/spool.go: a directory of files, the current one and those that were rotated away.
-- A rotated file's name is the label of its time stamp (package tai64n, outside the repository): labels
-- sort as their instants, so a name is its instant, a number. The directory holds nothing else, and
-- the file operations of the code succeed.
pub mod Rotation
pub mod Generating
pub mod Reading
pub mod Tests
use cypress.Base.{
  ℕ, zero, suc, ◌+◌, ◌%◌, ◌^◌, Bool, true, false, Option, none, some, List, [], ◌∷◌, ◌++◌, length,
  ltb, leb, ◌==◌, if◌then◌else◌, get_elem?, map, take, drop,
}

pub record File (M : Type 0) : Type 0 where
  pub stamp : ℕ
  pub messages : List M

-- `files` in the order of a directory listing. `current` is what the current file holds on the disk, and
-- `held` what the encoder has not written to it yet: its writer, a `snappyWriter`, holds some bytes back.
-- `start_size` and `encoded` are numbers of bytes.
pub record Spool (M : Type 0) : Type 0 where
  pub per_file_size : ℕ
  pub max_files : ℕ
  pub files : List (File M)
  pub current : List M
  pub held : List M
  pub start_size : ℕ
  pub encoded : ℕ

module _ {M : Type 0} where
  -- `os.Rename` of the current file: a file of the same name is replaced.
  pub put_file : File M → List (File M) → List (File M)
  put_file f [] = f ∷ []
  put_file f (g ∷ gs) =
      if ltb f.stamp g.stamp
      then f ∷ g ∷ gs
      else (if f.stamp == g.stamp then f ∷ gs else g ∷ put_file f gs)

  -- The loop of `pruneOldFiles`: how many files there are, and the stamp of the oldest.
  pub prune_scan : List (File M) → Option ℕ → ℕ → ℕ × Option ℕ
  prune_scan [] oldest count = (count, oldest)
  prune_scan (f ∷ fs) oldest count =
      prune_scan fs
        (elim oldest [
          | none ↦ some f.stamp
          | some t ↦ if ltb f.stamp t then some f.stamp else some t
        ])
        (count + 1)

  -- `os.Remove`
  pub remove_file : ℕ → List (File M) → List (File M)
  remove_file t [] = []
  remove_file t (f ∷ fs) = if f.stamp == t then fs else f ∷ remove_file t fs

  pub prune_old_files : Spool M → Spool M
  unfolding prune_scan remove_file
  prune_old_files s =
      let (count, oldest) = prune_scan s.files none 0 in
      if leb count s.max_files
      then s
      else elim oldest [ none ↦ s | some t ↦ record s { files = remove_file t s.files } ]

  -- `Flush`, which is also what `Close` does before it closes the file.
  pub flush : Spool M → Spool M
  flush s = record s { current = s.current ++ s.held; held = [] }

  -- `Rotate` at the instant `now`: the current file is flushed and gets its label as a name, one old file
  -- may go, and a new current file is opened, which is empty, with an encoder that holds nothing.
  pub rotate : ℕ → Spool M → Spool M
  unfolding put_file prune_old_files flush
  rotate now s =
      let flushed = flush s in
      let renamed = put_file (record { stamp = now; messages = flushed.current }) flushed.files in
      let pruned = prune_old_files (record flushed { files = renamed }) in
      record pruned { current = []; held = []; start_size = 0; encoded = 0 }

  -- `Receive` of a message that the encoder takes, as `cnt` bytes. Of the messages that the encoder
  -- holds then, the first `through` reach the file.
  pub receive : ℕ → ℕ → ℕ → M → Spool M → Spool M
  unfolding rotate
  receive now cnt through m s =
      let waiting = s.held ++ m ∷ [] in
      let written = record s {
        current = s.current ++ take through waiting;
        held = drop through waiting;
        encoded = (s.encoded + cnt) % 2 ^ 64;
      } in
      if leb s.per_file_size ((s.start_size + written.encoded) % 2 ^ 64)
      then rotate now written
      else written

-- The files that a generator has opened, the place of the one that it reads, and what the decoder has
-- left of that one.
pub record SpoolGenerator (M : Type 0) : Type 0 where
  pub closed : Bool
  pub files : List (List M)
  pub current : ℕ
  pub dec : List M

module _ {M : Type 0} where
  -- `Spool.Generator`: the rotated files in the order of their names, and the current one last, as they
  -- are on the disk.
  pub generator : Spool M → SpoolGenerator M
  generator s =
      let files = map (λ f. f.messages) s.files ++ s.current ∷ [] in
      record {
        closed = false;
        files = files;
        current = 0;
        dec = elim files [ [] ↦ [] | f ∷ fs ↦ f ];
      }

  -- `SpoolGenerator.Generate`, `none` for EOF, in at most `rounds` rounds of its loop. Files hold whole
  -- messages, so that the decoder ends a file with EOF and with no other error.
  pub generate : ℕ → SpoolGenerator M → Option M × SpoolGenerator M
  generate zero g = (none, g)
  generate (suc rounds) g =
      let next = generate rounds (record g {
        current = g.current + 1;
        dec = elim (get_elem? g.files (g.current + 1)) [ none ↦ [] | some f ↦ f ];
      }) in
      if g.closed then (none, g) else elim g.dec [
        | m ∷ ms ↦ (some m, record g { dec = ms })
        | [] ↦
            if g.current + 1 == length g.files
            then (none, record g { current = g.current + 1; closed = true })
            else next
      ]
