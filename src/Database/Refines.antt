-- ===== src/Database/Refines.antt =====
-- The queries of src/database/targets.c against the table of Database.Table.
pub mod Rows
pub mod Single
pub mod Listing
pub mod Changes
