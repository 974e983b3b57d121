-- ===== src/Acceleration.antt =====
-- The acceleration flyout: the form's data, its validation, the query it builds and its handlers.
pub mod Types
pub mod Validate
pub mod Query
pub mod Columns
pub mod Settings
pub mod SettingsLaws
pub mod Rows
pub mod ViewColumns
pub mod Create
pub mod Source
pub mod Tumble
pub mod Valid
mod Tests
