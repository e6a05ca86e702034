-- ===== src/Control.antt =====
-- apps/gateway/src/control.ts, the REST handlers behind the role guard, by topic.
pub mod Users
pub mod Machines
pub mod Exports
pub mod Paging
mod Tests
