-- ===== src/State.antt =====
-- pkg/state: the database of the chain and its transactions.
pub mod Keys
pub mod Store
pub mod Chain
pub mod Transaction
