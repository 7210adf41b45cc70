-- ===== src/Search/Default/Reads.antt =====
-- The reads of one search stay within the reader's budget.
use ai_vfs.Base.{
  ℕ, ◌+◌, ◌≤◌, ◌<◌, Bool, Option, none, some, List, [], ◌∷◌, Text, ltb, ltb→lt, starts_with,
  Bool-cases, Option-cases, inl, inr, arith,
}
use ai_vfs.Models.{SearchType, glob, find, regex, fulltext, semantic}
use ai_vfs.Errors.{Result, ok, err}
use ai_vfs.Exec.{continue}
use ai_vfs.Exec.Invariants.{Preserves, Preserves-pure, Preserves-bind, Preserves-raise}
use ai_vfs.World.{blob_get}
use ai_vfs.Search.{SearchMetaEntry, SearchResult, SearchRequest, ContentReader}
use ai_vfs.Search.Reader.{Reading, Search, step, entry_at, read_entry, read_found, read_content}
use ai_vfs.Search.Default.{
  Patterns, regex_entries, regex_search, search_by, unless_empty, default_search,
}

-- At most `n` reads are done.
pub record ReadsWithin (n : ℕ) (r : Reading) : Type 0 where
  pub within : r.reads_done ≤ n

step_within :
    (n : ℕ) (r : Reading) (a : Result Text)
    → r.reads_done < n
    → ReadsWithin n (continue a (λ d. λ s. (ok d, record s { reads_done = s.reads_done + 1 })) r).1
step_within n r (ok d) h = record { within = omega arith }
step_within n r (err e) h = record { within = omega arith }

module _ (reader : ContentReader) where
  read_entry-ReadsWithin :
      (entry : SearchMetaEntry) → Preserves (ReadsWithin reader.max_reads) (read_entry reader entry)
  unfolding read_entry
  read_entry-ReadsWithin entry = record {
    after = λ r h. elim (Bool-cases (ltb r.reads_done reader.max_reads)) [
      | inl q ↦
          rw q
            (step_within reader.max_reads (step (blob_get entry.content_hash) r).1 _ (ltb→lt _ _ q))
      | inr q ↦ rw q h
    ];
  }

  read_found-ReadsWithin :
      (o : Option SearchMetaEntry) → Preserves (ReadsWithin reader.max_reads) (read_found reader o)
  read_found-ReadsWithin none = Preserves-raise _
  read_found-ReadsWithin (some entry) = read_entry-ReadsWithin entry

  -- A read of the reader, whatever the path, leaves the reads done within the budget.
  pub read_content-ReadsWithin :
      (path : Text) → Preserves (ReadsWithin reader.max_reads) (read_content reader path)
  unfolding read_content
  read_content-ReadsWithin path = read_found-ReadsWithin (entry_at path reader.entries)

module _ (P : Patterns) where
  regex_entries-ReadsWithin :
      (matches : Text → Bool) (scope : Text) (reader : ContentReader) (es : List SearchMetaEntry)
      → Preserves (ReadsWithin reader.max_reads) (regex_entries P matches scope reader es)
  unfolding regex_entries
  regex_entries-ReadsWithin matches scope reader [] = Preserves-pure _
  regex_entries-ReadsWithin matches scope reader (e ∷ es) =
      elim (Bool-cases (starts_with e.path scope)) [
        | inl q ↦
            rw (regex_entries, q)
              (Preserves-bind _ _ (read_content-ReadsWithin reader e.path) (λ content.
                Preserves-bind _ _ (regex_entries-ReadsWithin matches scope reader es)
                  (λ rest. Preserves-pure _)))
        | inr q ↦ rw (regex_entries, q) (regex_entries-ReadsWithin matches scope reader es)
      ]

  search_by-ReadsWithin :
      (t : SearchType) (r : SearchRequest)
      → Preserves (ReadsWithin r.read_content.max_reads) (search_by P t r)
  unfolding search_by regex_search
  search_by-ReadsWithin glob r = Preserves-pure _
  search_by-ReadsWithin find r = Preserves-pure _
  search_by-ReadsWithin regex r = elim (Option-cases (P.compile r.query)) [
    | inl q ↦ rw q (Preserves-pure _)
    | inr (f, q) ↦ rw q (regex_entries-ReadsWithin f r.scope r.read_content r.search_metas)
  ]
  search_by-ReadsWithin fulltext r = Preserves-pure _
  search_by-ReadsWithin semantic r = Preserves-pure _

  unless_empty-ReadsWithin :
      (n : ℕ) (es : List SearchMetaEntry) (m : Search (List SearchResult))
      → Preserves (ReadsWithin n) m
      → Preserves (ReadsWithin n) (unless_empty P es m)
  unless_empty-ReadsWithin n [] m h = Preserves-pure _
  unless_empty-ReadsWithin n (e ∷ es) m h = h

  -- Whatever the other tasks do, a search of the built-in provider, also one that raises, leaves the
  -- number of blobs read within max_content_reads of its reader, where it was so before.
  pub default_search-ReadsWithin :
      (r : SearchRequest) (s : Reading)
      → s.reads_done ≤ r.read_content.max_reads
      → (default_search P r s).1.reads_done ≤ r.read_content.max_reads
  unfolding default_search
  default_search-ReadsWithin r s h =
      ((unless_empty-ReadsWithin _ r.search_metas _ (search_by-ReadsWithin r.search_type r)).after s
        (record { within = h })).within
