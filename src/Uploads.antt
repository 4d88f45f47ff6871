-- ===== src/Uploads.antt =====
-- client/uploads.go: uploads of one or more files, their shared status, and the registry of
-- correlation IDs.
pub mod Examples
mod Tests
pub mod Status
pub mod Multi
pub mod Heap
pub mod Registry
pub mod Methods
pub mod Stop
pub mod Threads
pub mod Consistency
