-- ===== src/Session/Laws.antt =====
-- What the operations of a session leave alone: the working directory, except for `cd`, and the
-- operation counter.
use ai_vfs.Base.{ℕ, ◌≡◌, Bool, Option, Text}
use ai_vfs.Exec.{modify}
use ai_vfs.Exec.Invariants.{
  Preserves, Preserves-modify, Preserves-bind, Preserves-gets, invariant_rules,
}
use ai_vfs.World.{Io, Setup}
use ai_vfs.Search.{MatchMode, FindPredicates}
use ai_vfs.Models.{SearchType}
use ai_vfs.Vfs.Search.{SearchProvider}
use ai_vfs.Session
use ai_vfs.Session.{Shell, Sh, io, resolved}

-- The counter shows `n`.
pub record Counts (n : ℕ) (s : Shell) : Type 0 where
  pub shown : s.count ≡ n

module _ {n : ℕ} where
  pub io-Counts : {A : Type 0} (m : Io A) → Preserves (Counts n) (io m)
  io-Counts m = record { after = λ s h. record { shown = h.shown } }

  pub resolved-Counts : (path : Text) → Preserves (Counts n) (resolved path)
  unfolding resolved
  resolved-Counts path = Preserves-gets _

  pub set_cwd-Counts : (cwd : Text) → Preserves (Counts n) (modify (λ s. record s { cwd = cwd }))
  set_cwd-Counts cwd = Preserves-modify _ (λ s h. record { shown = h.shown })

  pub ruleset count_rules = (invariant_rules, io-Counts, resolved-Counts, set_cwd-Counts)

  module _ (ns principal : Text) where
    pub cd-Counts : (path : Text) → Preserves (Counts n) (Session.cd ns principal path)
    unfolding Session.cd
    cd-Counts path = search count_rules

    pub stat-Counts : (path : Text) → Preserves (Counts n) (Session.stat ns principal path)
    unfolding Session.stat
    stat-Counts path = search count_rules

    pub read-Counts :
        (path : Text) (v : Option ℕ) → Preserves (Counts n) (Session.read ns principal path v)
    unfolding Session.read
    read-Counts path v = search count_rules

    pub pwd-Counts : Preserves (Counts n) Session.pwd
    unfolding Session.pwd
    pwd-Counts = search count_rules

    module _ (S : Setup) where
      pub list-Counts :
          (path : Text) (recursive : Bool)
          → Preserves (Counts n) (Session.list ns principal S path recursive)
      unfolding Session.list
      list-Counts path recursive = search count_rules

      pub write-Counts :
          (path content : Text) (v : Option ℕ)
          → Preserves (Counts n) (Session.write ns principal S path content v)
      unfolding Session.write
      write-Counts path content v = search count_rules

      pub delete-Counts : (path : Text) → Preserves (Counts n) (Session.delete ns principal S path)
      unfolding Session.delete
      delete-Counts path = search count_rules

      pub search-Counts :
          (P : SearchProvider) (query scope : Text) (t : SearchType) (f : Option FindPredicates)
          (m : MatchMode)
          → Preserves (Counts n) (Session.search ns principal S P query scope t f m)
      unfolding Session.search
      search-Counts P query scope t f m = search count_rules

  -- What the operations of sandboxed code build on.
  pub ruleset session_rules = (
    count_rules, cd-Counts, stat-Counts, read-Counts, pwd-Counts, list-Counts, write-Counts,
    delete-Counts, search-Counts,
  )
