-- ===== src/Kv.antt =====
-- log.go and kv.go: messages as lines of keys and values, through `Scan` of scanner/scanner.go. A text is the
-- list of its characters, so that it is valid UTF-8; the text of a time stamp and that of a float are
-- parameters.
pub mod Print
pub mod Scanning
pub mod Parse
pub mod Generate
pub mod Laws
pub mod TagRoundTrip
pub mod ValueRoundTrip
pub mod PairRoundTrip
pub mod BodyRoundTrip
pub mod RoundTrip
pub mod Scanner
pub mod Scanned
pub mod Progress
pub mod Printed
pub mod Termination
pub mod Unended
pub mod Tests
