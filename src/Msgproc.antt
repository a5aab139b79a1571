-- ===== src/Msgproc.antt =====
-- PICA_msgproc.c: messages framed by two equal bytes and a fixed or a stored size.
pub mod Defs
pub mod Size
pub mod Stream
pub mod Segments
pub mod Encode
