-- ===== src/Interp.antt =====
-- internal/interp: parts of the evaluator over the runtime.
pub mod Assign
pub mod Arith
pub mod Operators
