-- ===== src/Stream/Compression.antt =====
-- compress.go. The compressors and decompressors themselves are packages outside the repository; their
-- part is a record of functions on bytes.
use cypress.Base.{ℕ, List, [], ◌∷◌, ◌++◌, length, ltb, if◌then◌else◌}
use cypress.Base.Results.{Result, ok, err}

-- `StreamHeader_Compression`, an int32.
pub data Compression : Type 0 where
  no_compression snappy zlib : Compression
  other_compression : ℕ → Compression

-- "unknown compression requested", and the error of `zlib.NewReader`.
pub data CompressionPanic : Type 0 where
  unknown_compression bad_zlib : CompressionPanic

-- What a reader of package snappy or zlib makes of the bytes of a stream.
pub record Decompressors : Type 0 where
  pub unsnappy : List ℕ → List ℕ
  pub unzlib : List ℕ → Result CompressionPanic (List ℕ)

-- `ReadCompressed`
unfoldable pub read_compressed :
    Decompressors → Compression → List ℕ → Result CompressionPanic (List ℕ)
read_compressed d no_compression r = ok r
read_compressed d snappy r = ok (d.unsnappy r)
read_compressed d zlib r = d.unzlib r
read_compressed d (other_compression n) r = err unknown_compression

abbrev pub default_snappy_chunk_buffer : ℕ
default_snappy_chunk_buffer = 10_240

-- `snappyWriter`. `chunks` are the calls of `Write` of the embedded writer, oldest first.
pub record SnappyWriter : Type 0 where
  pub chunk_buffer : ℕ
  pub buf : List ℕ
  pub chunks : List (List ℕ)

-- The case of `WriteCompressed` for snappy.
unfoldable pub new_snappy_writer : SnappyWriter
new_snappy_writer = record { chunk_buffer = default_snappy_chunk_buffer; buf = []; chunks = [] }

-- `Write`, where the embedded writer does not fail: the new state and the count that it returns.
unfoldable pub snappy_write : List ℕ → SnappyWriter → SnappyWriter × ℕ
snappy_write bytes s =
    let held = record s { buf = s.buf ++ bytes } in
    if ltb (length held.buf) s.chunk_buffer
    then (held, length bytes)
    else (record held { buf = []; chunks = s.chunks ++ held.buf ∷ [] }, length bytes)

-- `Flush`, which `Close` calls.
unfoldable pub snappy_flush : SnappyWriter → SnappyWriter
snappy_flush s =
    if ltb 0 (length s.buf) then record s { buf = []; chunks = s.chunks ++ s.buf ∷ [] } else s
