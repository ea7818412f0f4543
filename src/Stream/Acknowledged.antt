-- ===== src/Stream/Acknowledged.antt =====
-- A sender and a receiver at the two ends of a connection.
use cypress.Base.{
  ℕ, ◌^◌, ◌≤◌, ◌<◌, ◌≡◌, refl, sym, ap, ◌∙◌, true, false, Option, some, List, [], ◌∷◌, ◌++◌, map,
  length, length-map, replicate, append_assoc, append-nil, arith, All, inl,
}
use cypress.Base.Results.{Result, ok}
use cypress.Message.Types.{Message}
use cypress.Send.{Send, notify_all, ack, read_ack}
use cypress.Send.Rounds.{send_all, entries, read_ack-send_all}
use cypress.Stream.Frames.{Payload, default_message}
use cypress.Stream.Compression.{Decompressors, no_compression}
use cypress.Stream.Headers.{StreamHeader, get_compression, is_reliable, empty_header}
use cypress.Stream.Encoder.{new_stream_encoder, write_custom_header, flush, receive_all}
use cypress.Stream.Decoder.{Fault, Parsers, native_format, StreamDecoder, generate}
use cypress.Stream.RoundTrip.{frames, Carries, AtFrames, generate-frame, generate_stream}
use cypress.Stream.Receiver.{Recv, new_recv, send_ack, recv_generate, recv_times}

-- The messages with the requests of their senders.
abbrev pub with_requests : {M R : Type 0} → List M → List (Option R) → List (M × Option R)
with_requests [] reqs = []
with_requests (m ∷ ms) [] = []
with_requests (m ∷ ms) (r ∷ reqs) = (m, r) ∷ with_requests ms reqs

with_requests-lem :
    {M R : Type 0} (ms : List M) (reqs : List (Option R))
    → length ms ≡ length reqs
    → (length (with_requests ms reqs) ≡ length ms) × (map (λ x. x.0) (with_requests ms reqs) ≡ ms)
with_requests-lem [] reqs e = (refl, refl)
with_requests-lem (m ∷ ms) [] e = absurd (omega (arith, e))
with_requests-lem {M} (m ∷ ms) (r ∷ reqs) e =
    let (size, first) = with_requests-lem ms reqs (omega (arith, e)) in
    (omega (arith, size), ap (λ (l : List M). m ∷ l) first)

module _ {T : Type 0} (p : Payload (Message T)) (ps : Parsers T) (h : Payload StreamHeader)
    (d : Decompressors) where
  recv_step :
      (m : Message T) (dec : StreamDecoder) (hdr : StreamHeader) (r : Recv)
      → generate p ps h d r.dec ≡ (ok m, dec)
      → dec.header ≡ some hdr
      → is_reliable hdr ≡ true
      → recv_generate p ps h d r ≡ (ok m, record { dec = dec; written = r.written ++ b'k' ∷ [] })
  unfolding recv_generate send_ack
  recv_step m dec hdr r e hh rel = ground arith

  -- One message, with its acknowledgement.
  recv_generate-frame :
      (x : Message T × Message T) (ms : List (Message T)) (hdr : StreamHeader) (r : Recv)
      (s : StreamDecoder)
      → Carries p default_message x
      → AtFrames p ps h d s (x.0 ∷ ms)
      → s.header ≡ some hdr
      → is_reliable hdr ≡ true
      → generate p ps h d r.dec ≡ generate p ps h d s
      → recv_generate p ps h d r ≡ (
        ok x.1,
        record {
          dec = record s { dec = record { format = some native_format; r = frames p ms } };
          written = r.written ++ b'k' ∷ [];
        },
      )
  recv_generate-frame x ms hdr r s en a hh rel same =
      recv_step x.1 _ hdr r (same ∙ generate-frame p ps h d x ms s en a) hh rel

  recv_times-frames :
      (xs : List (Message T × Message T)) (hdr : StreamHeader) (r : Recv) (s : StreamDecoder)
      → All (Carries p default_message) xs
      → AtFrames p ps h d s (map (λ x. x.0) xs)
      → s.header ≡ some hdr
      → is_reliable hdr ≡ true
      → generate p ps h d r.dec ≡ generate p ps h d s
      → ((recv_times p ps h d (length xs) r).0 ≡ map (λ x. ok x.1) xs)
        × ((recv_times p ps h d (length xs) r).1.written ≡ r.written ++ replicate (length xs) b'k')
  unfolding recv_times
  recv_times-frames [] hdr r s es a hh rel same = (refl, sym (append-nil r.written))
  recv_times-frames (x ∷ xs) hdr r s (en, es) a hh rel same =
      let ms : List (Message T) = map (λ y. y.0) xs in
      let step = recv_generate-frame x ms hdr r s en a hh rel same in
      let s' : StreamDecoder = record s {
        dec = record { format = some native_format; r = frames p ms };
      } in
      let r' : Recv = record { dec = s'; written = r.written ++ b'k' ∷ [] } in
      let (got, acks) = recv_times-frames xs hdr r' s' es (a.0, inl refl) hh rel refl in
      (
        rw (step, recv_times) (ap (λ (l : List (Result Fault (Message T))). ok x.1 ∷ l) got),
        rw (step, recv_times)
            (acks ∙ append_assoc r.written (b'k' ∷ []) (replicate (length xs) b'k')),
      )

  -- A batch goes over a connection: `Send` hands the messages to its encoder behind a header, a `Recv`
  -- at the other end reads as many messages, and the sender reads what it wrote back. The sender is
  -- open and reading, and has credit for the batch, within 32 bits, and nothing in flight before it.
  -- `MarshalTo` can write the header and each message, and `Unmarshal` takes its bytes; the header
  -- that comes of them asks for acknowledgements and no compression. Then the receiver has, in order,
  -- what `Unmarshal` makes of exactly the bytes of each message, starting from one of version 1, and the
  -- sender's requests hear that their messages are acknowledged, in order; nothing is left in flight.
  pub sent_and_acknowledged :
      {R : Type 0} (reqs : List (Option R)) (xs : List (Message T × Message T))
      (s : Send R (Message T)) (hdr got_hdr : StreamHeader)
      → length reqs ≡ length xs
      → s.closed ≡ false
      → s.reading ≡ true
      → s.reqs ≡ []
      → length xs ≤ s.available
      → s.available < 2 ^ 32
      → Carries h empty_header (hdr, got_hdr)
      → get_compression got_hdr ≡ no_compression
      → is_reliable got_hdr ≡ true
      → All (Carries p default_message) xs
      → let sent = map (λ x. x.0) xs in
        let batch = with_requests sent reqs in
        let wire =
          (flush (receive_all p sent (write_custom_header h hdr new_stream_encoder).0)).out in
        let (got, r) = recv_times p ps h d (length xs) (new_recv wire) in
        (got ≡ map (λ x. ok x.1) xs)
        × (read_ack r.written (send_all batch s) ≡ record s {
          notices = s.notices ++ notify_all ack (entries batch);
          wire = s.wire ++ sent;
        })
  unfolding new_recv
  sent_and_acknowledged reqs xs s hdr got_hdr same_length o alive e l b eh c rel es =
      let sent : List (Message T) = map (λ x. x.0) xs in
      let (size, first) =
        with_requests-lem sent reqs (length-map xs (λ x. x.0) ∙ sym same_length) in
      let wire : List ℕ =
        (flush (receive_all p sent (write_custom_header h hdr new_stream_encoder).0)).out in
      let (t, same, a, hh) = generate_stream p ps h d hdr got_hdr sent eh c in
      let all = recv_times-frames xs got_hdr (new_recv wire) t es a hh rel same in
      let room = size ∙ length-map xs (λ x. x.0) in
      let told = read_ack-send_all (with_requests sent reqs) s o alive e (omega (arith, room)) b in
      (all.0, rw all.1 (rw (first, room) at told))
