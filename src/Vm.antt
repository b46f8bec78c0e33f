-- ===== src/Vm.antt =====
-- The virtual memory simulator of p3: replacement queues, page tables, MMU and the request loop.
pub mod Nodes
pub mod Replacement
pub mod Tables
pub mod Generator
pub mod Mmu
pub mod Requests
mod Tests
