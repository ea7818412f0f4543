-- ===== src/Stream/RoundTrip.antt =====
-- A whole stream: header and frames, written and read back.
use cypress.Base.{
  ℕ, zero, suc, ◌≡◌, refl, sym, ap, ◌∙◌, true, false, none, some, List, [], ◌∷◌, ◌++◌, length, map,
  append_assoc, append-nil, arith, All, ◌⊎◌, inl, inr,
}
use cypress.Base.Results.{Result, ok, err}
use cypress.Message.Types.{Message}
use cypress.Stream.Frames.{Payload, eof, encode, decode_native, default_message}
use cypress.Stream.FrameRoundTrip.{
  Encodes, length_prefix, decode_native-encode, encode_lem, read_sized-encoding, reading,
}
use cypress.Stream.Compression.{Decompressors, no_compression, read_compressed}
use cypress.Stream.Headers.{StreamHeader, get_compression, probe, empty_header}
use cypress.Stream.Encoder.{
  StreamEncoder, new_stream_encoder, marshal, write_custom_header, write_through, receive, flush,
  receive_all,
}
use cypress.Stream.Decoder.{
  Fault, decode_error, Parsers, native_format, probe_format, decode_as, decode, StreamDecoder,
  new_stream_decoder, probe_stream, generate,
}

module _ {M : Type 0} (p : Payload M) where
  -- The frames of messages, one after the other.
  abbrev pub frames : List M → List ℕ
  frames [] = []
  frames (m ∷ ms) = (encode p m).0 ++ frames ms

  -- `MarshalTo` writes the first of two messages, and `Unmarshal`, starting from `start`, makes the
  -- second of its bytes.
  abbrev pub Carries : M → M × M → Type 0
  Carries start (m, t) = (bs : List ℕ) × Encodes p m bs × (p.unmarshal start bs ≡ some t)

  pub receive-held :
      (m : M) (s : StreamEncoder)
      → s.wrapped ≡ true
      → ((receive p m s).0.held ≡ s.held ++ (encode p m).0)
        × ((receive p m s).0.out ≡ s.out)
        × ((receive p m s).0.wrapped ≡ true)
  unfolding receive write_through
  receive-held m s w = ground arith

  pub receive_all-held :
      (ms : List M) (s : StreamEncoder)
      → s.wrapped ≡ true
      → ((receive_all p ms s).held ≡ s.held ++ frames ms) × ((receive_all p ms s).out ≡ s.out)
  unfolding receive_all
  receive_all-held [] s w = (sym (append-nil s.held), refl)
  receive_all-held (m ∷ ms) s w =
      let (h, o, w') = receive-held m s w in
      let (hs, os) = receive_all-held ms (receive p m s).0 w' in
      (hs ∙ rw h (append_assoc s.held (encode p m).0 (frames ms)), os ∙ o)

  frame_head :
      (m : M) (bs : List ℕ) → Encodes p m bs → (tail : List ℕ) × ((encode p m).0 ≡ b'+' ∷ tail)
  frame_head m bs e = let (ls, w, back) = encode_lem p m bs e in (ls ++ bs, rw w refl)

marshal_lem :
    {M : Type 0} (p : Payload M) (m : M) (bs : List ℕ) → Encodes p m bs → marshal p m ≡ ok bs
unfolding marshal
marshal_lem p m bs e =
    rw (e.emits (record { written = []; room = p.size m }) (omega (arith, e.sized)), marshal) refl

-- The header on the wire.
abbrev pub header_bytes : List ℕ → List ℕ → List ℕ
header_bytes ls hb = ((b'-' ∷ []) ++ ls) ++ hb

pub header_written :
    (hp : Payload StreamHeader) (hdr : StreamHeader) (hb : List ℕ)
    → Encodes hp hdr hb
    → (ls : List ℕ) × ((write_custom_header hp hdr new_stream_encoder).0
        ≡ record { out = header_bytes ls hb; wrapped = true; held = []; encoded = 0 })
      × ((rest : List ℕ) → probe hp (header_bytes ls hb ++ rest) ≡ reading hp empty_header hb rest)
unfolding write_custom_header new_stream_encoder probe
header_written hp hdr hb e =
    let (ls, w, _, back) = length_prefix (length hb) e.small in
    (
      ls,
      rw (marshal_lem hp hdr hb e, write_custom_header) (rw w refl),
      λ rest.
          rw (append_assoc ls hb rest)
            (read_sized-encoding hp empty_header ls hb rest (back (hb ++ rest))),
    )

module _ {T : Type 0} (p : Payload (Message T)) (ps : Parsers T) where
  -- A decoder that has found out the format, and one that still has to, at a frame.
  decode_frame :
      (m t : Message T) (bs rest : List ℕ)
      → Encodes p m bs
      → p.unmarshal default_message bs ≡ some t
      → decode p ps (record { format = some native_format; r = (encode p m).0 ++ rest })
        ≡ (ok t, record { format = some native_format; r = rest })
  unfolding decode decode_as
  decode_frame m t bs rest e u = rw ((decode_native-encode p m bs e).1 rest, decode) (rw u refl)

  decode_probed :
      (tail : List ℕ)
      → decode p ps (record { format = none; r = b'+' ∷ tail })
        ≡ decode p ps (record { format = some native_format; r = b'+' ∷ tail })
  unfolding decode probe_format
  decode_probed tail = refl

  module _ (h : Payload StreamHeader) (d : Decompressors) where
    -- `Generate` called `n` times.
    pub generate_times : ℕ → StreamDecoder → List (Result Fault (Message T))
    generate_times zero s = []
    generate_times (suc n) s = (generate p ps h d s).0 ∷ generate_times n (generate p ps h d s).1

    generate_initialised :
        (s : StreamDecoder)
        → s.init ≡ true
        → generate p ps h d s ≡ ((decode p ps s.dec).0, record s { dec = (decode p ps s.dec).1 })
    unfolding generate
    generate_initialised s i = ground arith

    -- The decoder stands at the frames of messages, and may still have to find out the format.
    abbrev pub AtFrames : StreamDecoder → List (Message T) → Type 0
    AtFrames s ms =
        (s.init ≡ true)
        × ((s.dec ≡ record { format = some native_format; r = frames p ms })
            ⊎ (s.dec ≡ record { format = none; r = frames p ms }))

    pub generate-frame :
        (x : Message T × Message T) (ms : List (Message T)) (s : StreamDecoder)
        → Carries p default_message x
        → AtFrames s (x.0 ∷ ms)
        → generate p ps h d s
          ≡ (ok x.1, record s { dec = record { format = some native_format; r = frames p ms } })
    generate-frame (m, t) ms s (bs, en, u) (i, inl e) =
        let step : decode p ps s.dec
            ≡ (ok t, record { format = some native_format; r = frames p ms }) =
          rw e (decode_frame m t bs (frames p ms) en u) in
        rw (generate_initialised s i) (rw step refl)
    generate-frame (m, t) ms s (bs, en, u) (i, inr e) =
        let (tail, head) = frame_head p m bs en in
        let known : decode p ps (record { format = some native_format; r = frames p (m ∷ ms) })
            ≡ (ok t, record { format = some native_format; r = frames p ms }) =
          decode_frame m t bs (frames p ms) en u in
        let step : decode p ps s.dec
            ≡ (ok t, record { format = some native_format; r = frames p ms }) =
          rw e (rw head (decode_probed (tail ++ frames p ms) ∙ rw head at known)) in
        rw (generate_initialised s i) (rw step refl)

    generate_end :
        (s : StreamDecoder) → AtFrames s [] → (generate p ps h d s).0 ≡ err (decode_error eof)
    unfolding decode decode_as decode_native probe_format
    generate_end s (i, inl e) = rw (generate_initialised s i) (rw e refl)
    generate_end s (i, inr e) = rw (generate_initialised s i) (rw e refl)

    -- From the frames of messages on, each call gives what comes of a message, and the last one EOF.
    generate_times-frames :
        (xs : List (Message T × Message T)) (s : StreamDecoder)
        → All (Carries p default_message) xs
        → AtFrames s (map (λ x. x.0) xs)
        → generate_times (suc (length xs)) s ≡ map (λ x. ok x.1) xs ++ err (decode_error eof) ∷ []
    unfolding generate_times
    generate_times-frames [] s es a = rw (generate_end s a) refl
    generate_times-frames (x ∷ xs) s (en, es) a = rw (generate-frame x (map (λ y. y.0) xs) s en a) (
        ap (λ (l : List (Result Fault (Message T))). ok x.1 ∷ l)
          (generate_times-frames xs _ es (a.0, inl refl)))

    -- The first call probes the stream.
    pub generate_first :
        (hdr : StreamHeader) (src : List ℕ) (s : StreamDecoder)
        → s.init ≡ false
        → get_compression hdr ≡ no_compression
        → probe h s.r ≡ ok (hdr, src)
        → generate p ps h d s
          ≡ generate p ps h d
              (record s { init = true; header = some hdr; dec = record { format = none; r = src } })
    unfolding generate probe_stream read_compressed
    generate_first hdr src s i c e = ground arith

    generate_times_same :
        (n : ℕ) (s t : StreamDecoder)
        → generate p ps h d s ≡ generate p ps h d t
        → generate_times (suc n) s ≡ generate_times (suc n) t
    unfolding generate_times
    generate_times_same n s t e = rw e refl

    -- A decoder on the bytes of an encoder behaves as one that has read the header.
    pub generate_stream :
        (hdr got : StreamHeader) (ms : List (Message T))
        → Carries h empty_header (hdr, got)
        → get_compression got ≡ no_compression
        → (s : StreamDecoder) × (generate p ps h d (
              new_stream_decoder
                (flush (receive_all p ms (write_custom_header h hdr new_stream_encoder).0)).out)
            ≡ generate p ps h d s)
          × AtFrames s ms
          × (s.header ≡ some got)
    unfolding flush new_stream_decoder
    generate_stream hdr got ms (hb, eh, u) c =
        let (ls, w, back) = header_written h hdr hb eh in
        let s : StreamEncoder = (write_custom_header h hdr new_stream_encoder).0 in
        let wrapped : s.wrapped ≡ true = ap (λ (t : StreamEncoder). t.wrapped) w in
        let (held, out) = receive_all-held p ms s wrapped in
        let none_held : s.held ≡ [] = ap (λ (t : StreamEncoder). t.held) w in
        let header : s.out ≡ header_bytes ls hb = ap (λ (t : StreamEncoder). t.out) w in
        let wire : (receive_all p ms s).out ++ (receive_all p ms s).held
            ≡ header_bytes ls hb ++ frames p ms =
          rw (out, held, header, none_held) refl in
        let start : StreamDecoder = new_stream_decoder (header_bytes ls hb ++ frames p ms) in
        (
          record start {
            init = true;
            header = some got;
            dec = record { format = none; r = frames p ms };
          },
          rw wire (
              generate_first got (frames p ms) start refl c
                (back (frames p ms) ∙ rw (u, reading) refl)),
          (refl, inr refl),
          refl,
        )

    -- What a `StreamEncoder` writes behind a header, once it is flushed, a `StreamDecoder` reads frame
    -- by frame, where the header that is read asks for no compression. `MarshalTo` can write the header
    -- and each message, and `Unmarshal` takes its bytes: for the header starting from an empty one,
    -- for a message from one of version 1. Then calls of `Generate` give in order what `Unmarshal`
    -- makes of exactly the bytes of each message, and the call after the last one gives EOF.
    pub generate-receive_all :
        (hdr got : StreamHeader) (xs : List (Message T × Message T))
        → Carries h empty_header (hdr, got)
        → get_compression got ≡ no_compression
        → All (Carries p default_message) xs
        → let sent = map (λ x. x.0) xs in
          let s = flush (receive_all p sent (write_custom_header h hdr new_stream_encoder).0) in
          generate_times (suc (length xs)) (new_stream_decoder s.out)
          ≡ map (λ x. ok x.1) xs ++ err (decode_error eof) ∷ []
    generate-receive_all hdr got xs eh c es =
        let (s, same, a, _) = generate_stream hdr got (map (λ x. x.0) xs) eh c in
        generate_times_same (length xs) _ s same ∙ generate_times-frames xs s es a
