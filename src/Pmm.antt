-- ===== src/Pmm.antt =====
-- boot/limine/limine/common/mm: the physical memory map of the boot loader.
pub mod Entry
pub mod Hits
pub mod Order
pub mod Sanitise
pub mod NewEntry
pub mod Alloc
pub mod Query
pub mod Usable
pub mod Boot
pub mod Info
pub mod Tests
