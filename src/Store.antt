-- ===== src/Store.antt =====
-- src/vfs/stores/schema.py and sql_metadata.py: the tables, and the body that each store operation
-- runs on them. A statement of SQL is a function on the list of a table's rows; the rows have no
-- order that the program relies on. `World` gives a body its commit and its rollback.
pub mod Tables
pub mod Files
pub mod Versions
pub mod Permissions
pub mod Names
pub mod TextIndex
pub mod Retention
pub mod History
pub mod Latest
