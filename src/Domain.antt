-- ===== src/Domain.antt =====
-- internal/domain: objects, transactions and nodes, the vocabulary of every other part.
pub mod Object
pub mod Node
pub mod Transitions
pub mod Examples
