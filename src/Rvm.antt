-- ===== src/Rvm.antt =====
-- The stack machine that evaluates a compiled constraint on an event: RDI_RVM and RDI_RTVal
-- (lib/RDIRVM.cc, lib/RDIDynamicEval.cc, include/RDIDynamicEvalDefs.h).
pub mod Value
pub mod Env
pub mod Arith
pub mod Machine
pub mod Ops
pub mod Compare
pub mod Parts
pub mod Contain
pub mod Step
pub mod Typing
pub mod Simple
pub mod Opens
pub mod Numbers
pub mod Safety
pub mod Program
mod Tests
