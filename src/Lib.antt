-- ===== src/Lib.antt =====
-- cypress moves log messages: generators make them, filters change or drop them, receivers store
-- them or send them on. A message (log.go, log.pb.go) holds attributes and tags; streams of
-- messages travel over files and connections. This library models the parts below and proves what
-- makes them right, or where they go wrong.
--
-- Parts, with the source each follows:
-- - Varint: varint.go, `WriteUvarint` and `ReadUvarint`. A stream is the list of its bytes.
-- - Message.Types, Message.Symbols, Message.Attributes, Message.Tags, Message.Removal: the structs
--   of log.pb.go, the key table of symbols.go, and the methods of log.go that add, read and remove
--   attributes and tags. A nil pointer is `none`, a run-time panic a value of `Panic`.
-- - Message.Intervals: `durationToInterval`, `Duration` and `subsecond` of log.go, and the
--   fraction of a second in kv.go.
-- - Send: send.go, the sender with a window. `Send.Delivery.Life` and `Send.Window.Step` are its
--   steps: `Send`, a read of acknowledgements, a read that fails.
-- - Resend: reliable_send.go, `ReliableSend`, over the model of `Send`: `Receive`, `drain`, `reconnect`
--   and `Close`, and what a connection tells through `Ack`, `Nack` and `onClosed`. Resend.Effects says
--   what each step of a connection does with the messages, Resend.Runs what every run does.
-- - Kv: the key/value lines. Kv.Print is `KVStringInto` and the hstore texts of log.go, Kv.Parse and
--   Kv.Generate are `KVParser` of kv.go. Kv.Scanner is `Scan` of scanner/scanner.go with the
--   modes that kv.go sets; Kv.Laws says what the format relies on in it, and Kv.Scanned and
--   Kv.Progress show that it does so. A text is the list of its characters. Go's texts of floats and
--   ints, the labels of tai64n, and letters and digits beyond ASCII are parameters.
-- - Message.Adding: `Add`, `tryContainers` and `AddMany` of log.go, on a tree of what reflection finds.
-- - Glue: glue.go, `Glue` and `GlueFiltered`, between a generator and a receiver.
-- - Router: router/router.go, `Route.Flow`. A filter may write to the message that it is given, as
--   the messages of the code are pointers; what it returns is a value of its own.
-- - Syslog: plugins/syslog/syslog.go. The tables of facilities and severities and their use;
--   Syslog.Reader what the code uses of `bufio.Reader`, as parsers that pass the bytes to come and
--   a count. The code takes the bytes of each read off `total` in statements of its own, which the
--   count of the reading operations stands for. Syslog.Structured is `parse5425`; Syslog.Legacy is `parseSyslog` and `runConn`.
--   Syslog.Reads and Syslog.Counting are laws of the parsers, from which Syslog.Connections puts
--   whole connections together. `time.Parse`, together with the label that package tai64n makes of
--   a time, is the parameter `parse_time`.
-- - TcpLog: plugins/lib/tcplog/tcplog.go, the logger with its pump of a hundred lines:
--   `ReadAsync`, `sendLogs` on a script of the outcomes of the network's calls, and `Read`.
-- - Statsd: statsd/server.go and statsd/metric.go, from a datagram to the metrics that the handler
--   is given. Floating point numbers are the parameter `Floats`.
-- - Stream: Stream.Frames (encoder.go and `decodeNative`), Stream.Headers (header.go, probe.go,
--   peek.go), Stream.Compression (compress.go), Stream.Encoder (stream_encoder.go), Stream.Decoder
--   (decoder.go and stream_decoder.go) and Stream.Receiver (recv.go). The generated methods of a
--   message are the parameter `Payload`, of which Stream.Marshalled takes `Size` and `MarshalTo` from
--   Codec; `Unmarshal` is used for what it makes of given bytes, and no law of it is assumed; the parsers of the other formats `Parsers`, the packages
--   for compression `Decompressors`.
-- - Spool: plugins/spool/spool.go, writing, rotating and reading a directory of files. What the
--   encoder holds back until it is flushed is kept apart from the file.
-- - Codec: log.pb.go, `Size`, `MarshalTo` and `Marshal`, against the wire format of Codec.Wire.
--   The encoding of a time stamp (package tai64n) is a parameter, `StampCodec`.
-- - Base: numbers, texts, lists and results that the parts share.
--
-- How they meet: a spool and a sender are receivers, a spool's generator is a generator, and
-- `Glue` and `Route.Flow` run the ones against the others. Attributes take their keys from the
-- symbol table, and the adders of intervals and the text format share `Interval`. `Send` writes
-- frames through the stream encoder, `Recv` reads them and answers with the bytes that `Send`
-- counts as acknowledgements: Stream.Acknowledged runs the two against each other. `ReliableSend`
-- gives what a broken connection hands back to the next one. The parsers of
-- Syslog make messages by the adders.
--
-- Bounds and fuel: machine integers wrap where the code's do (`% 2 ^ 64`, `% 2 ^ 32`), and sizes
-- of tables and windows are below 2 ^ 32. `put_uvarint` runs on the ten bytes of its buffer,
-- `encode_varint` on nine rounds before the last byte, `pad_zeros` on nine rounds, and `generate`
-- on rounds of which the number of files is enough; the theorems say so. The parameters of a
-- syslog line are read in at most one round for each byte that is left, a datagram likewise, since
-- each round takes a byte at least. The loops of `KVParser` run on one round more than there are
-- characters, and Kv.Termination shows that they never need another; a loop that waits for a space
-- behind the end of the input, as the code has two, never ends and is the value `endless`. `read_sync` is given its rounds, and the theorem speaks about
-- any number of them.
--
-- Not modelled: `Unmarshal` and the other generated methods of log.pb.go, the JSON texts, the texts
-- of log.go for syslog and terminals, compressed streams on the encoder's side, the other plugins, the
-- keystore, configuration and commands. Of scanner/scanner.go, a changed copy of a package of the Go
-- library, the buffer, the positions, the other modes and the reports of errors are left out. Sockets that listen, timers and files as such are left out. The file system and the
-- network enter as values: files hold whole messages, a write succeeds or not, a read gives bytes
-- or fails. Goroutines enter as orders of steps; steps are atomic.
pub mod Base
pub mod Varint
pub mod Message
pub mod Send
pub mod Router
pub mod Glue
pub mod Syslog
pub mod TcpLog
pub mod Statsd
pub mod Spool
pub mod Codec
pub mod Stream
pub mod Resend
pub mod Kv
