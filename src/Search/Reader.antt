-- ===== src/Search/Reader.antt =====
-- src/vfs/search/reader.py: the reader that a search is given. It reads the enumerated versions only,
-- by their content hash, and at most `max_reads` times.
use ai_vfs.Base.{ℕ, ◌+◌, Option, none, some, List, [], ◌∷◌, Text, text_eq, ltb, if◌then◌else◌}
use ai_vfs.Errors.{permission_denied, read_budget_exceeded}
use ai_vfs.Exec.{Exec, pure, raise, guard, modify, ◌>>=◌, ◌>>◌}
use ai_vfs.World.{World, Io, blob_get}
use ai_vfs.Search.{SearchMetaEntry, ContentReader}

-- The world, and the reads that the search has done.
pub record Reading : Type 0 where
  pub world : World
  pub reads_done : ℕ

abbrev pub Search : Type 0 → Type 0
Search A = Exec Reading A

-- A step that the reader does not count.
abbrev pub step : {A : Type 0} → Io A → Search A
step m r = let (a, w) = m r.world in (a, record r { world = w })

-- `{e.path: e for e in entries}`: of two entries with one path, the later.
unfoldable pub entry_at : Text → List SearchMetaEntry → Option SearchMetaEntry
unfolding text_eq
entry_at path [] = none
entry_at path (e ∷ es) = elim (entry_at path es) [
  | some f ↦ some f
  | none ↦ if text_eq e.path path then some e else none
]

-- The rest of `read`, for an enumerated path.
unfoldable pub read_entry : ContentReader → SearchMetaEntry → Search Text
read_entry reader entry = do
  can_read ← λ r. pure (ltb r.reads_done reader.max_reads) r
  guard can_read read_budget_exceeded
  data_read ← step (blob_get entry.content_hash)
  modify (λ r. record r { reads_done = r.reads_done + 1 })
  pure data_read

abbrev pub read_found : ContentReader → Option SearchMetaEntry → Search Text
read_found reader none = raise permission_denied
read_found reader (some entry) = read_entry reader entry

-- `ContentReader.read`
unfoldable pub read_content : ContentReader → Text → Search Text
unfolding entry_at read_entry
read_content reader path = read_found reader (entry_at path reader.entries)
