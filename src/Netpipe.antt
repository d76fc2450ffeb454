-- ===== src/Netpipe.antt =====
-- src/netpipe.c: the core, which is linked with one protocol module.
pub mod Buffers
pub mod Run
pub mod Object
pub mod Integrity
pub mod Pointers
pub mod Cache
pub mod Delivery
pub mod Session
