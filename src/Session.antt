-- ===== src/Session.antt =====
-- src/vfs/session.py: a principal's view of one namespace, with a working directory. The operation
-- counter that sandboxed code shares with the session is part of the same state.
pub mod Laws
pub mod Cwd
use ai_vfs.Base.{ℕ, Bool, Option, List, [], ◌∷◌, ◌++◌, Text, codes, ends_with, if◌then◌else◌}
use ai_vfs.Models.{FileMeta, VersionMeta, SearchType}
use ai_vfs.Exec.{Exec, gets, modify, ◌>>=◌, ◌>>◌}
use ai_vfs.Paths.Posix.{slash}
use ai_vfs.Paths.Canonical.{resolve_path}
use ai_vfs.World.{World, Io, Setup}
use ai_vfs.Search.{MatchMode, FindPredicates, SearchResult}
use ai_vfs.Vfs.Access
use ai_vfs.Vfs.Write
use ai_vfs.Vfs.Read
use ai_vfs.Vfs.Transfer
use ai_vfs.Vfs.Search
use ai_vfs.Vfs.Access.{check_perm}
use ai_vfs.Vfs.Search.{SearchProvider}

-- The world, `_cwd`, and the `_count` of the session's `OperationCounter`.
pub record Shell : Type 0 where
  pub world : World
  pub cwd : Text
  pub count : ℕ

abbrev pub Sh : Type 0 → Type 0
Sh A = Exec Shell A

-- An operation of the VFS, called by the session.
abbrev pub io : {A : Type 0} → Io A → Sh A
io m s = let (a, w) = m s.world in (a, record s { world = w })

-- A session over the given world, as `Session(...)` builds it.
abbrev pub new_session : World → Shell
new_session w = record { world = w; cwd = codes "/"; count = 0 }

-- `if not resolved.endswith("/"): resolved += "/"`
unfoldable pub as_directory : Text → Text
unfolding ends_with
as_directory path = if ends_with path slash then path else path ++ (slash ∷ [])

unfoldable pub pwd : Sh Text
pwd = gets (λ s. s.cwd)

-- An argument resolved through the working directory.
unfoldable pub resolved : Text → Sh Text
unfolding resolve_path
resolved path = gets (λ s. resolve_path s.cwd path)

module _ (ns principal : Text) where
  unfoldable pub cd : Text → Sh (Unit {0})
  unfolding resolved as_directory
  cd path = do
    target ← resolved path
    io (check_perm principal ns (as_directory target) (codes "read"))
    modify (λ s. record s { cwd = as_directory target })

  unfoldable pub stat : Text → Sh FileMeta
  unfolding resolved
  stat path = do target ← resolved path; io (Access.stat ns target principal)

  unfoldable pub versions : Text → ℕ → Option ℕ → Sh (List VersionMeta)
  unfolding resolved
  versions path limit before = do
    target ← resolved path
    io (Access.versions ns target principal limit before)

  unfoldable pub read : Text → Option ℕ → Sh Text
  unfolding resolved
  read path version_number = do
    target ← resolved path
    io (Read.read ns target principal version_number)

  module _ (S : Setup) where
    unfoldable pub list : Text → Bool → Sh (List FileMeta)
    unfolding resolved
    list path_prefix recursive = do
      target ← resolved path_prefix
      io (Access.list S ns target principal recursive)

    unfoldable pub write : Text → Text → Option ℕ → Sh VersionMeta
    unfolding resolved
    write path content expected_version = do
      target ← resolved path
      io (Write.write S ns target content principal expected_version)

    unfoldable pub delete : Text → Sh VersionMeta
    unfolding resolved
    delete path = do target ← resolved path; io (Read.delete S ns target principal)

    unfoldable pub copy : Text → Text → Option ℕ → Sh VersionMeta
    unfolding resolved
    copy src dst expected_version = do
      source ← resolved src
      target ← resolved dst
      io (Transfer.copy S ns source target principal expected_version)

    unfoldable pub move : Text → Text → Sh VersionMeta
    unfolding resolved
    move src dst = do
      source ← resolved src
      target ← resolved dst
      io (Transfer.move S ns source target principal)

    unfoldable pub rollback : Text → ℕ → Sh VersionMeta
    unfolding resolved
    rollback path target_version = do
      target ← resolved path
      io (Read.rollback S ns target target_version principal)

    unfoldable pub search :
        SearchProvider
        → Text
        → Text
        → SearchType
        → Option FindPredicates
        → MatchMode
        → Sh (List SearchResult)
    unfolding resolved
    search P query scope search_type find_predicates match_mode = do
      target ← resolved scope
      io (Search.search P S ns query target search_type principal find_predicates match_mode)
