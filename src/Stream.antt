-- ===== src/Stream.antt =====
-- encoder.go, decoder.go, header.go, probe.go, peek.go, compress.go, stream_encoder.go,
-- stream_decoder.go and recv.go: streams of messages. A stream is the list of its bytes; the writer under
-- an encoder takes what it is given.
pub mod Frames
pub mod Marshalled
pub mod Compression
pub mod Headers
pub mod Encoder
pub mod Decoder
pub mod FrameRoundTrip
pub mod RoundTrip
pub mod Receiver
pub mod Chunks
pub mod Acknowledged
pub mod Tests
