-- ===== src/Wire/RoundTrip.antt =====
-- internal/imapwire: what encoder.go writes, decoder.go reads back.
pub mod Quoted
pub mod Number
pub mod Literal
pub mod Forms
pub mod Astring
pub mod Mailbox
pub mod NumSet
