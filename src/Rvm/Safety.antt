-- ===== src/Rvm/Safety.antt =====
-- Proofs that the ops of the machine (lib/RDIRVM.cc) keep to the types of lib/RDIEval.cc.
pub mod Plain
mod Values
mod Choices
mod Walks
mod Components
pub mod Conversions
pub mod Steps
