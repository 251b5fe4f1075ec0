-- ===== src/Privsep/RoundTrip.antt =====
-- Payloads of src/privsep_protocol.c written and read back.
pub mod Fixed
pub mod Sized
pub mod Canonical
pub mod Lengths
pub mod Whole
