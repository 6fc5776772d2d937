-- ===== src/Wg.antt =====
-- internal/wg: lists of allowed addresses, and the configurations that are generated.
pub mod AllowedIps
pub mod Overlaps
pub mod Config
pub mod Dump
