-- ===== src/Users.antt =====
-- What a person may do with the whole account: src/mintflow/application/users.
pub mod Deletion
