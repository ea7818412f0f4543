-- ===== src/Message.antt =====
-- log.go, symbols.go and the types of log.pb.go: a message, its attributes and its tags.
pub mod Types
pub mod Symbols
pub mod Attributes
pub mod Adding
pub mod Intervals
pub mod Tags
pub mod Removal
pub mod Tests
