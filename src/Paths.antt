-- ===== src/Paths.antt =====
-- Paths: the functions of `posixpath` that the program calls, the canonical-form guard and the
-- resolution against a working directory, grant prefixes, and the escaping of LIKE patterns.
pub mod Posix
pub mod Canonical
pub mod Prefix
pub mod Like
