-- ===== src/Stream/Chunks.antt =====
-- `snappyWriter` keeps every byte, in order, and holds back less than a chunk.
use cypress.Base.{
  ℕ, ◌<◌, ◌≤◌, ◌≡◌, refl, sym, ap, ◌∙◌, List, [], ◌∷◌, ◌++◌, length, append_assoc, append-nil,
  arith, ltb, Bool-cases, inl, inr,
}
use cypress.Base.{take, drop, take-append-drop, true, false, zero, suc, ◌-◌, if◌then◌else◌}
use cypress.Base.Results.{ok, err, index_out_of_range}
use cypress.Stream.Headers.{BytePeekReader, least, peek_read}
use cypress.Stream.Compression.{
  SnappyWriter, new_snappy_writer, snappy_write, snappy_flush, default_snappy_chunk_buffer,
}

-- All the bytes of a list of chunks.
abbrev pub joined : List (List ℕ) → List ℕ
joined [] = []
joined (c ∷ cs) = c ++ joined cs

abbrev pub all_written : SnappyWriter → List ℕ
all_written s = joined s.chunks ++ s.buf

joined-last : (cs : List (List ℕ)) (c : List ℕ) → joined (cs ++ c ∷ []) ≡ joined cs ++ c
joined-last [] c = append-nil c
joined-last (x ∷ cs) c =
    ap (λ (t : List ℕ). x ++ t) (joined-last cs c) ∙ sym (append_assoc x (joined cs) c)

pub write_many : List (List ℕ) → SnappyWriter → SnappyWriter
write_many [] s = s
write_many (b ∷ bs) s = write_many bs (snappy_write b s).0

pub record Holds (s : SnappyWriter) (bytes : List ℕ) : Type 0 where
  pub kept : all_written s ≡ bytes
  pub size : s.chunk_buffer ≡ default_snappy_chunk_buffer
  pub below : length s.buf < s.chunk_buffer

write-Holds :
    (s : SnappyWriter) (bytes b : List ℕ) → Holds s bytes → Holds (snappy_write b s).0 (bytes ++ b)
unfolding snappy_write
write-Holds s bytes b h = elim (Bool-cases (ltb (length (s.buf ++ b)) s.chunk_buffer)) [
  | inl small ↦ rw small (record {
    kept = sym (append_assoc (joined s.chunks) s.buf b) ∙ ap (λ (t : List ℕ). t ++ b) h.kept;
    size = h.size;
    below = ground arith;
  })
  | inr large ↦ rw large (record {
    kept =
        append-nil _
        ∙ joined-last s.chunks (s.buf ++ b)
        ∙ sym (append_assoc (joined s.chunks) s.buf b)
        ∙ ap (λ (t : List ℕ). t ++ b) h.kept;
    size = h.size;
    below = omega (arith, h.size);
  })
]

write_many-Holds :
    (bs : List (List ℕ)) (s : SnappyWriter) (bytes : List ℕ)
    → Holds s bytes
    → Holds (write_many bs s) (bytes ++ joined bs)
unfolding write_many
write_many-Holds [] s bytes h = rw (append-nil bytes) h
write_many-Holds (b ∷ bs) s bytes h =
    rw (append_assoc bytes b (joined bs)) at
      (write_many-Holds bs (snappy_write b s).0 (bytes ++ b) (write-Holds s bytes b h))

flush_all :
    (s : SnappyWriter) (bytes : List ℕ)
    → all_written s ≡ bytes
    → (joined (snappy_flush s).chunks ≡ bytes) × ((snappy_flush s).buf ≡ [])
unfolding snappy_flush
flush_all s bytes h = elim (Bool-cases (ltb 0 (length s.buf))) [
  | inl some_held ↦ rw some_held (joined-last s.chunks s.buf ∙ h, refl)
  | inr none_held ↦
      let nothing = no_bytes s.buf (ground arith) in
      rw none_held (sym (append-nil (joined s.chunks)) ∙ rw (← nothing) refl ∙ h, nothing)
]
  where
    no_bytes : (xs : List ℕ) → length xs ≤ 0 → xs ≡ []
    no_bytes [] l = refl
    no_bytes (x ∷ xs) l = absurd (omega arith)

-- Whatever is written in whatever pieces, the bytes that the embedded writer was given and those that
-- are held back are the bytes written, in order; less than a chunk is held back, and nothing after a
-- `Flush`.
pub write_many-all_written :
    (bs : List (List ℕ))
    → let s = write_many bs new_snappy_writer in
      (all_written s ≡ joined bs)
      × (length s.buf < default_snappy_chunk_buffer)
      × ((joined (snappy_flush s).chunks ≡ joined bs) × ((snappy_flush s).buf ≡ []))
unfolding new_snappy_writer
write_many-all_written bs =
    let h =
      write_many-Holds bs new_snappy_writer []
        (record { kept = refl; size = refl; below = omega arith }) in
    let s = write_many bs new_snappy_writer in
    (h.kept, omega (arith, h.below, h.size), flush_all s (joined bs) h.kept)

-- What a `bytePeekReader` has still to give.
abbrev pub peeked : BytePeekReader → List ℕ
peeked p = if p.used then p.r else p.b ∷ p.r

-- Reads through a `bytePeekReader` give the byte that was looked at and then the stream: what a read
-- gives, with what is still to come, is what was to come before. Only the first read needs room for
-- a byte; with none it panics.
peek_read-peeked :
    (ready room : ℕ) (p : BytePeekReader)
    → (0 < room
        → (bs : List ℕ) × (q : BytePeekReader) × (peek_read ready room p ≡ ok (bs, q))
          × (bs ++ peeked q ≡ peeked p)
          × (length bs ≤ room))
      × (p.used ≡ false → peek_read ready 0 p ≡ err index_out_of_range)
unfolding peek_read
peek_read-peeked ready room p = (λ h. reading h, λ u. ground arith)
  where
    length-take-le : (n : ℕ) (xs : List ℕ) → length (take n xs) ≤ n
    length-take-le zero [] = omega arith
    length-take-le zero (x ∷ xs) = omega arith
    length-take-le (suc n) [] = omega arith
    length-take-le (suc n) (x ∷ xs) = omega (arith, length-take-le n xs)

    reading :
        0 < room
        → (bs : List ℕ) × (q : BytePeekReader) × (peek_read ready room p ≡ ok (bs, q))
          × (bs ++ peeked q ≡ peeked p)
          × (length bs ≤ room)
    reading h = elim (Bool-cases p.used) [
      | inl u ↦
          let n : ℕ = least ready room in
          let size = length-take-le n p.r in
          (
            take n p.r,
            record p { r = drop n p.r },
            rw (u, peek_read) refl,
            rw u (take-append-drop n p.r),
            ground (arith, size),
          )
      | inr u ↦
          let n : ℕ = least ready (room - 1) in
          let size = length-take-le n p.r in
          (
            p.b ∷ take n p.r,
            record p { used = true; r = drop n p.r },
            ground arith,
            rw u (ap (λ (t : List ℕ). p.b ∷ t) (take-append-drop n p.r)),
            ground (arith, size),
          )
    ]
