-- ===== src/App.antt =====
-- app: what the operations of a person's device decide on top of the protocol. Reading configuration,
-- prompting and the rest of the input and output are left out.
pub mod Heads
pub mod Reading
pub mod Accepting
pub mod Merging
pub mod Compacting
pub mod Members
pub mod Writing
