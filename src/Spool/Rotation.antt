-- ===== src/Spool/Rotation.antt =====
-- The spool as a bounded log: rotation keeps the number of files, and drops the oldest.
use cypress.Base.{
  ℕ, ◌+◌, ◌%◌, ◌^◌, ◌≤◌, ◌<◌, ◌≡◌, refl, sym, ap, ◌∙◌, inl, inr, some, List, [], ◌∷◌, ◌++◌, arith,
  length, append_assoc, append-nil, leb, Bool-cases, All, length-append, subst, dec_le, take, drop,
  take-append-drop,
}
use cypress.Spool.{
  File, Spool, put_file, prune_scan, remove_file, prune_old_files, flush, rotate, receive,
}

module _ {M : Type 0} where
  -- The messages of the rotated files, the oldest file first.
  abbrev pub archive : List (File M) → List M
  archive [] = []
  archive (f ∷ fs) = f.messages ++ archive fs

  -- All that the spool holds, the oldest message first, and what its encoder holds at the end.
  abbrev pub contents : Spool M → List M
  contents s = archive s.files ++ (s.current ++ s.held)

  -- The stamps rise along the listing.
  abbrev pub Rising : List (File M) → Type 0
  Rising [] = Unit {0}
  Rising (f ∷ fs) = All (λ g. f.stamp < g.stamp) fs × Rising fs

  put_file_last :
      (f : File M) (fs : List (File M))
      → All (λ g. g.stamp < f.stamp) fs
      → put_file f fs ≡ fs ++ f ∷ []
  unfolding put_file
  put_file_last f [] h = refl
  put_file_last f (g ∷ gs) (h, hs) = ground (arith, put_file_last f gs hs)

  prune_scan_min :
      (fs : List (File M)) (t count : ℕ)
      → All (λ g. t < g.stamp) fs
      → prune_scan fs (some t) count ≡ (count + length fs, some t)
  unfolding prune_scan
  prune_scan_min [] t count h = ground arith
  prune_scan_min (f ∷ fs) t count (h, hs) = ground (arith, prune_scan_min fs t (count + 1) hs)

  -- What pruning does to files in order.
  prune_lem :
      (s : Spool M) (f : File M) (fs : List (File M))
      → s.files ≡ f ∷ fs
      → Rising (f ∷ fs)
      → (length s.files ≤ s.max_files → prune_old_files s ≡ s)
        × (s.max_files < length s.files → prune_old_files s ≡ record s { files = fs })
  unfolding prune_old_files prune_scan remove_file
  prune_lem s f fs e (h, hs) = (
    λ l. ground (arith, prune_scan_min fs f.stamp 1 h),
    λ l. ground (arith, prune_scan_min fs f.stamp 1 h),
  )

  archive-append : (fs gs : List (File M)) → archive (fs ++ gs) ≡ archive fs ++ archive gs
  archive-append [] gs = refl
  archive-append (f ∷ fs) gs =
      ap (λ (t : List M). f.messages ++ t) (archive-append fs gs)
      ∙ sym (append_assoc f.messages (archive fs) (archive gs))

  All-last :
      (P : File M → Type 0) (fs : List (File M)) (f : File M)
      → All P fs
      → P f
      → All P (fs ++ f ∷ [])
  All-last P [] f h p = (p, tt)
  All-last P (g ∷ gs) f (h, hs) p = (h, All-last P gs f hs p)

  Rising-last :
      (fs : List (File M)) (f : File M)
      → Rising fs
      → All (λ g. g.stamp < f.stamp) fs
      → Rising (fs ++ f ∷ [])
  Rising-last [] f r h = (tt, tt)
  Rising-last (g ∷ gs) f (r, rs) (h, hs) =
      (All-last (λ x. g.stamp < x.stamp) gs f r h, Rising-last gs f rs hs)

  append_view :
      (fs : List (File M)) (f : File M)
      → (g : File M) × (gs : List (File M)) × (fs ++ f ∷ [] ≡ g ∷ gs)
  append_view [] f = (f, [], refl)
  append_view (g ∷ gs) f = (g, gs ++ f ∷ [], refl)

  -- How the files come out of a rotation: in order, at most the oldest gone, and gone only if there
  -- were as many as may be kept.
  pub record Rotates (s : Spool M) (f : File M) (kept : List (File M)) : Type 0 where
    pub dropped : List (File M)
    pub split : s.files ++ f ∷ [] ≡ dropped ++ kept
    pub few : length dropped ≤ 1
    pub room : length s.files < s.max_files → dropped ≡ []
    pub bounded : length s.files ≤ s.max_files → length kept ≤ s.max_files
    pub rising : Rising kept

  prune-Rotates :
      (s : Spool M) (f : File M)
      → Rising s.files
      → All (λ g. g.stamp < f.stamp) s.files
      → Rotates s f (prune_old_files (record s { files = s.files ++ f ∷ [] })).files
  prune-Rotates s f r h =
      let (g, gs, e) = append_view s.files f in
      let rising = Rising-last s.files f r h in
      let size : length (s.files ++ f ∷ []) ≡ length s.files + 1 = length-append s.files (f ∷ []) in
      let pruned =
        prune_lem (record s { files = s.files ++ f ∷ [] }) g gs e (subst Rising e rising) in
      elim (dec_le (length (s.files ++ f ∷ [])) s.max_files) [
        | yes fits ↦ rw (pruned.0 fits) (record {
          dropped = [];
          split = refl;
          few = omega arith;
          room = λ l. refl;
          bounded = λ l. fits;
          rising = rising;
        })
        | no over ↦
            let lost = pruned.1 (omega arith) in
            rw lost (record {
              dropped = g ∷ [];
              split = e;
              few = omega arith;
              room = λ l. absurd (omega arith);
              bounded = λ l. omega (arith, ap length e);
              rising = (subst Rising e rising).1;
            })
      ]

  abbrev current_file : ℕ → Spool M → File M
  current_file now s = record { stamp = now; messages = s.current ++ s.held }

  rotate_lem :
      (now : ℕ) (s : Spool M)
      → All (λ g. g.stamp < now) s.files
      → rotate now s
        ≡ record (prune_old_files
            (record (flush s) { files = s.files ++ current_file now s ∷ [] })) {
              current = [];
              held = [];
              start_size = 0;
              encoded = 0;
            }
  unfolding rotate flush
  rotate_lem now s h =
      ap
        (λ (fs : List (File M)). record (prune_old_files (record (flush s) { files = fs })) {
          current = [];
          held = [];
          start_size = 0;
          encoded = 0;
        })
        (put_file_last (current_file now s) s.files h)

  -- A rotation later than all stamps moves the current messages behind the archive.
  rotate-contents :
      (now : ℕ) (s : Spool M)
      → Rising s.files
      → All (λ g. g.stamp < now) s.files
      → (dropped : List (File M)) × (contents s ≡ archive dropped ++ contents (rotate now s))
        × (length dropped ≤ 1)
        × (length s.files < s.max_files → dropped ≡ [])
        × (length s.files ≤ s.max_files → length (rotate now s).files ≤ s.max_files)
        × Rising (rotate now s).files
  unfolding flush
  rotate-contents now s r h =
      let p = prune-Rotates (flush s) (current_file now s) r h in
      let whole : contents s ≡ archive (s.files ++ current_file now s ∷ []) = sym (
        archive-append s.files (current_file now s ∷ [])
        ∙ ap (λ (t : List M). archive s.files ++ t) (append-nil (s.current ++ s.held))) in
      rw (rotate_lem now s h) (
        p.dropped,
        whole
            ∙ ap archive p.split
            ∙ archive-append p.dropped _
            ∙ ap (λ (t : List M). archive p.dropped ++ t) (sym (append-nil _)),
        p.few,
        p.room,
        p.bounded,
        p.rising,
      )

  -- The spool is a log that is bounded by whole files: after a message the spool holds what it held
  -- and the message at the end, but for the messages of at most one file, which are the oldest; while
  -- there are fewer rotated files than are kept nothing is lost, and there are never more than that.
  -- The rotated files stay in the order of their stamps. The clock is ahead of all stamps;
  -- what the encoder holds back counts as held by the spool.
  pub receive-contents :
      (now cnt through : ℕ) (m : M) (s : Spool M)
      → Rising s.files
      → All (λ g. g.stamp < now) s.files
      → (dropped : List (File M)) × (contents s ++ m ∷ []
          ≡ archive dropped ++ contents (receive now cnt through m s))
        × (length dropped ≤ 1)
        × (length s.files < s.max_files → dropped ≡ [])
        × (length s.files ≤ s.max_files → length (receive now cnt through m s).files ≤ s.max_files)
        × Rising (receive now cnt through m s).files
  unfolding receive
  receive-contents now cnt through m s r h =
      let waiting : List M = s.held ++ m ∷ [] in
      let written = record s {
        current = s.current ++ take through waiting;
        held = drop through waiting;
        encoded = (s.encoded + cnt) % 2 ^ 64;
      } in
      let grown : contents s ++ m ∷ [] ≡ contents written =
        append_assoc (archive s.files) (s.current ++ s.held) (m ∷ [])
        ∙ ap (λ (t : List M). archive s.files ++ t)
            (append_assoc s.current s.held (m ∷ [])
              ∙ ap (λ (t : List M). s.current ++ t) (sym (take-append-drop through waiting))
              ∙ sym (append_assoc s.current (take through waiting) (drop through waiting))) in
      elim (Bool-cases (leb s.per_file_size ((s.start_size + written.encoded) % 2 ^ 64))) [
        | inl full ↦
            let (dropped, c, few, room, bounded, rising) = rotate-contents now written r h in
            rw (full, receive) (dropped, grown ∙ c, few, room, bounded, rising)
        | inr fits ↦ rw (fits, receive) ([], grown, omega arith, λ l. refl, λ l. l, r)
      ]
