-- ===== src/Lib.antt =====
-- ai-vfs: a versioned virtual file system over a metadata store and a blob store.
--
-- An agent's call goes through a method of `VFS` (src/vfs/vfs.py): the path must be in canonical
-- form, the principal must hold the permission, the content goes to the blob store under its hash,
-- the new version and the file's current-version pointer go to the metadata store in one
-- transaction, and an audit event is appended. The metadata store is `BaseSqlMetadataStore` of
-- src/vfs/stores/sql_metadata.py with the SQLite dialect of src/vfs/stores/sqlite_metadata.py; the
-- blob store is `LocalFSBlobStore` of src/vfs/stores/local_blob.py.
--
-- What models what:
--   Base         tests, lists, texts and sorting that the modules share. Strings and `bytes` are
--                lists of numbers, and numbers are native.
--   Errors       src/vfs/errors.py: the exceptions as values.
--   Exec         code that changes a state and may raise: a function from a state to a result and
--                the state after it. Exec/Invariants and Exec/Answers have the rules by which the
--                proofs go through its do blocks.
--   Models       src/vfs/models.py: the records. A time is a number.
--   Paths        `posixpath.join` and `posixpath.normpath` (Paths/Posix), `_require_canonical` of
--                vfs.py and sql_metadata.py and `resolve_path` of src/vfs/session.py
--                (Paths/Canonical), `_prefix_matches` (Paths/Prefix), `_like_escape` and the
--                pattern of `list_dir` (Paths/Like).
--   Store        the tables of src/vfs/stores/schema.py as lists of rows (Store/Tables; versions are
--                newest first) and the methods of `BaseSqlMetadataStore`, each a function on the
--                tables that may raise: files, versions, permissions, names, retention queries, and
--                the text index of sqlite_metadata.py (Store/TextIndex; Store/TextIndex/Mirrored and
--                Store/TextIndex/Kept are about its tables). Store/History and Store/Latest are
--                about the version history, Store/Permissions/Decision and
--                Store/Permissions/Granted about the permission check.
--   World        the two stores, the counters of identifiers and clock readings, and what other
--                tasks do. `operation` is `_operation` and `transaction` of sql_metadata.py: it runs
--                a body on the tables, and keeps its changes if the body returns. `blob_put`,
--                `blob_get`, `blob_delete` and `blob_exists` are the methods of the blob store.
--   CachedBlob   src/vfs/stores/cached_blob.py: a blob store behind a disk cache.
--   Search       src/vfs/protocols/search.py, src/vfs/search/reader.py (Search/Reader),
--                src/vfs/search/default.py with _regex.py (Search/Default), `str.splitlines`,
--                `str.split` and `str.strip` (Search/Lines), and the queries of the text index of
--                sqlite_metadata.py (Search/Sqlite, with Search/Sqlite/Quoting and
--                Search/Sqlite/Shown about them).
--   Vfs          the methods of `VFS`: Vfs/Audit (src/vfs/observability/audit.py), Vfs/Access
--                (`_check_perm`, `stat`, `list`, `versions`), Vfs/Retry and Vfs/Write (`write`),
--                Vfs/Read (`read`, `delete`, `rollback`), Vfs/Transfer (`copy`, `move`), Vfs/Grants
--                (`grant`, `bootstrap_admin`, `create_namespace`, `create_principal`,
--                `resolve_name`), Vfs/Search (`search`, `_native_search`), Vfs/Reindex (`reindex`).
--                Vfs/Quiet, Vfs/Added, Vfs/Write/Laws, Vfs/Read/Laws, Vfs/Restore,
--                Vfs/Copied, Vfs/Moved, Vfs/Granted, Vfs/RoundTrip, Vfs/Refused,
--                Vfs/Search/Permitted, Vfs/Search/Builtin and Vfs/Reindex/Settled are about a world where no other task
--                runs, Vfs/Interleaved about one where others do.
--   Session      src/vfs/session.py. Its state, `Shell`, is the world, the working directory and the
--                count of the operation counter that sandboxed code shares with the session.
--   Execution    src/vfs/execution: the counter and the records (Execution), fs_ops.py
--                (Execution/FsOps, Execution/Lines), fs_port.py (Execution/FsPort), what a sandbox
--                runs (Execution/Program), registry.py and `execute` of vfs.py
--                (Execution/Execute). Execution/Budget and Execution/Calls are about the counter,
--                Execution/Limits and Execution/Slices about the answers, Execution/Contract and
--                Execution/Audited about `execute`.
--   Gc           src/vfs/gc.py: `evaluate_tier_retention` (Gc/Tiers, Gc/Spared), `GarbageCollector` and
--                `run_gc` of vfs.py (Gc/Collect, Gc/Blobs).
--   Tests        the theorems at concrete inputs.
--
-- Interleaving: a task gives way to others only where it waits for a store. `World.others` lists
-- what the other tasks do at the next such points, any functions on the two stores; each store
-- operation first lets the next one run. A transaction holds the store's lock, so nothing runs
-- inside one.
--
-- Loops: the retry loops of `write`, `copy` and `move` make at most `_MAX_WRITE_RETRIES` = 5
-- attempts; the number of the attempts left is an argument, and no other loop is bounded.
--
-- Parameters: `World.Setup` holds what dependencies and the configuration give: the LIKE operator of
-- the database with its documented behaviour (`Paths.Like.LikeOperator`), BLAKE3 as a function, the
-- identifiers (ULID, uuid4) and clock readings by their number, the trace id, UTF-8 decoding, the
-- native text search of the store if it has one, and whether audit logging is on. Nothing is assumed
-- of BLAKE3 or of the identifiers; a theorem that needs a fresh identifier, the absence of a hash
-- collision or a digest that is not empty has it as a hypothesis. The primary keys of the versions,
-- the permissions and the audit events are enforced, so that an identifier that is taken raises
-- IntegrityError.
--
-- Simplifications: `LocalFSBlobStore.put` writes the file in one step, so that no task sees half of a
-- blob; it is given digests and `delete` is given listed hashes, neither of them the empty text. One
-- clock reading stands for the several of one write; a manifest entry that is not the dict of an
-- artifact is kept as `malformed`; transactions are not nested; the tracing spans of
-- src/vfs/observability/tracing.py are left out, since they carry no result. The walk of the blob
-- collection over the stored hashes is one listing, and the division of the tier windows is exact on
-- whole numbers. A search of the SQLite index is one operation of the store.
--
-- A sandbox is any function from code to a tree of calls (`Execution.Program.Program`), in which what
-- comes after a call depends on its answer or its exception; the exception of a timeout is a leaf of
-- the tree. Search takes its provider and the MATCH of FTS5 as parameters (`Vfs.Search.SearchProvider`,
-- `Search.Sqlite.Fts`), and `fnmatch`, `PurePosixPath.match`, whose treatment of `**` differs between
-- Python versions, RE2 and the lossy decoding as `Search.Default.Patterns`; the disk cache is
-- `CachedBlob.DiskCache`, with its behaviour as `CachedBlob.Laws.CacheLaws`. The messages of errors
-- are left out, except those that `execute` puts into a result. A negative count of lines is the
-- count 0.
--
-- Not modelled: the adapters to the interpreters (src/vfs/execution/monty_os.py, monty_provider.py,
-- just_bash_provider.py), which only translate their calls to those of fs_port.py; the PostgreSQL,
-- MongoDB and S3 stores, the creation of the FTS5 tables (the tables exist and are readable), the stream
-- methods of the blob stores, which are not implemented, the protocols (type declarations only), the
-- configuration record, the migrations, and the demo and notebook code.
pub mod Base
pub mod Errors
pub mod Exec
pub mod Paths
pub mod Models
pub mod Store
pub mod World
pub mod CachedBlob
pub mod Search
pub mod Vfs
pub mod Session
pub mod Execution
pub mod Gc
pub mod Tests
