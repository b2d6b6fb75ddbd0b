-- ===== src/Command.antt =====
-- `purchaseCommand` of sdk/src/commands/purchase.ts: the arguments, the state that it keeps between
-- runs in ~/.cards402/last-order, and its calls of `purchaseCardOWS`.
pub mod Args
pub mod LastOrder
pub mod Run
pub mod Saves
pub mod Resumes
pub mod Printed
pub mod Tests
