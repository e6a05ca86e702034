-- ===== src/Store.antt =====
-- packages/store: the durable tables of the control plane behind the `IStore` operations. The
-- tables stand in `Store`, the operations in the children, as `InMemoryStore` (memory.ts) has them.
pub mod Domain
pub mod Memory
pub mod Audit
