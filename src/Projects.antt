-- ===== src/Projects.antt =====
-- The course projects, programs of their own in projects.
pub mod Gates
pub mod Jobs
pub mod Client
mod Tests
