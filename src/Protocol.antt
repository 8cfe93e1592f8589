-- ===== src/Protocol.antt =====
-- protocol/ht_protocol.c, sl_vins100.c and text_protocol.c: what a received buffer must hold, and the
-- frame that is queued for it. `none` is undefined behaviour, mostly an access out of bounds.
pub mod Words
pub mod Names
pub mod Check
pub mod Arrays
pub mod Seal
pub mod Ht
pub mod Sl
pub mod Text
