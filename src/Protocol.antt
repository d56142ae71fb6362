-- ===== src/Protocol.antt =====
-- The wire protocol of common.py: the forms of nonces and ids, the bytes that both sides sign, and
-- the test of a signature.
pub mod Forms
pub mod Decimal
pub mod Message
pub mod Injective
pub mod Hex
pub mod Signature
