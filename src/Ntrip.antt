-- ===== src/Ntrip.antt =====
-- The NTRIP protocol: src/sp_rtk_base_relay/core/ntrip.
pub mod Chunked
pub mod Texts
pub mod Headers
pub mod Reply
