-- ===== src/Projects.antt =====
-- projects/ and persistence/project.repository.ts
pub mod Access
pub mod Store
pub mod Service
pub mod Management
