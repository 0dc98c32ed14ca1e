-- ===== src/OpSeq.antt =====
-- The op sequence that the constraint compiler emits, RDI_OpSeq (lib/RDIOpSeq.cc,
-- include/RDIEvalDefs.h), with the stack of static types that it keeps beside the ops.
pub mod Codes
pub mod Tables
pub mod Stack
pub mod Seq
pub mod Fits
pub mod Safety
pub mod Required
pub mod Jumps
mod Tests
