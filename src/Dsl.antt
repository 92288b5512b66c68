-- ===== src/Dsl.antt =====
-- The crate obzenflow-fsm-macros: the `fsm!` table language and the derives.
pub mod Syn
pub mod Spec
pub mod Parse
pub mod Spelling
pub mod Codegen
pub mod Derive
pub mod Fsm
pub mod Lookup
pub mod Expand
pub mod Checks
pub mod Tables
pub mod Eval
pub mod Meaning
