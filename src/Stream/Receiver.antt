-- ===== src/Stream/Receiver.antt =====
-- recv.go: messages from a stream, each answered with an acknowledgement where the stream is reliable.
use cypress.Base.{ℕ, zero, suc, none, some, List, [], ◌∷◌, ◌++◌, if◌then◌else◌}
use cypress.Base.Results.{Result, ok, err}
use cypress.Message.Types.{Message}
use cypress.Stream.Frames.{Payload}
use cypress.Stream.Compression.{Decompressors}
use cypress.Stream.Headers.{StreamHeader, is_reliable}
use cypress.Stream.Decoder.{Fault, Parsers, StreamDecoder, new_stream_decoder, generate}

-- `written` is what was written back; an error of the write is dropped, as in the code.
pub record Recv : Type 0 where
  pub dec : StreamDecoder
  pub written : List ℕ

-- `NewRecv`
unfoldable pub new_recv : List ℕ → Recv
unfolding new_stream_decoder
new_recv r = record { dec = new_stream_decoder r; written = [] }

-- `reliableAckBytes`
abbrev pub reliable_ack_bytes : List ℕ
reliable_ack_bytes = b'k' ∷ []

-- `sendAck`
unfoldable pub send_ack : Recv → Recv
send_ack r = record r { written = r.written ++ reliable_ack_bytes }

module _ {T : Type 0} (p : Payload (Message T)) (ps : Parsers T) (h : Payload StreamHeader)
    (d : Decompressors) where
  -- `Recv.Generate`; the mode of a header that is nil is 0.
  unfoldable pub recv_generate : Recv → Result Fault (Message T) × Recv
  unfolding generate send_ack is_reliable
  recv_generate r =
      let (result, dec) = generate p ps h d r.dec in
      let next = record r { dec = dec } in
      elim result [
        | err e ↦ (err e, next)
        | ok m ↦ (
          ok m,
          elim dec.header [
            | none ↦ next
            | some hdr ↦ if is_reliable hdr then send_ack next else next
          ],
        )
      ]

  -- A receiver that calls `Generate` as often as it is told.
  unfoldable pub recv_times : ℕ → Recv → List (Result Fault (Message T)) × Recv
  recv_times zero r = ([], r)
  recv_times (suc n) r =
      let rest = recv_times n (recv_generate r).1 in ((recv_generate r).0 ∷ rest.0, rest.1)
