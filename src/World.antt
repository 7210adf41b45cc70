-- ===== src/World.antt =====
-- What the operations of the library act on: the two stores, the sources of identifiers and of time,
-- and the other tasks. `_operation` and `transaction` of sql_metadata.py stand here.
use ai_vfs.Base.{
  ℕ, ◌+◌, Bool, true, false, Option, none, some, List, [], ◌∷◌, Text, text_eq, if◌then◌else◌,
}
use ai_vfs.Errors.{Result, ok, err, not_found, is_a_directory}
use ai_vfs.Exec.{Exec}
use ai_vfs.Paths.Like.{LikeOperator}
use ai_vfs.Store.Tables.{Meta, Sql}
use ai_vfs.Store.TextIndex.{NativeTextSearch}

-- Blobs by content hash.
abbrev pub Blobs : Type 0
Blobs = List (Text × Text)

pub record Stores : Type 0 where
  pub meta : Meta
  pub blobs : Blobs

-- `ids` and `ticks` count the identifiers drawn and the clock readings made. `others` holds what the
-- other tasks do at the next points where this task waits for a store, one entry for each.
pub record World : Type 0 where
  pub stores : Stores
  pub ids : ℕ
  pub ticks : ℕ
  pub others : List (Stores → Stores)

abbrev pub Io : Type 0 → Type 0
Io A = Exec World A

-- What the program takes from its dependencies, and its configuration.
pub record Setup : Type 0 where
  pub like : LikeOperator
  -- `blake3.blake3(content).hexdigest()`
  pub blake3 : Text → Text
  -- the n-th identifier (`ULID()`, `uuid4()`) and the n-th reading of the clock
  pub new_id : ℕ → Text
  pub clock : ℕ → ℕ
  -- the OpenTelemetry trace id
  pub trace_id : Option Text
  -- `content.decode("utf-8")`, `none` for a `UnicodeDecodeError`
  pub decode : Text → Option Text
  -- `native_text_search()`
  pub native_text_search : Option NativeTextSearch
  pub audit_log_enabled : Bool

-- The other tasks' turn, before the store's lock is taken.
unfoldable pub interleave : World → World
interleave w = elim w.others [ [] ↦ w | f ∷ rest ↦ record w { stores = f w.stores; others = rest } ]

abbrev pub with_meta : World → Meta → World
with_meta w m = record w { stores = record { meta = m; blobs = w.stores.blobs } }

-- Commit on success, roll back on an exception.
abbrev pub commit : {A : Type 0} → Result A → World → Meta → Result A × World
commit (ok a) w m = (ok a, with_meta w m)
commit (err e) w m = (err e, w)

-- `_operation()` outside a transaction, and `transaction()` around several bodies: both hold the
-- lock, and so see no other task, until they commit or roll back.
unfoldable pub operation : {A : Type 0} → Sql A → Io A
unfolding interleave
operation sql w = let w' = interleave w in let (r, m) = sql w'.stores.meta in commit r w' m

unfoldable pub find_blob : Text → Blobs → Option Text
unfolding text_eq
find_blob h [] = none
find_blob h ((k, d) ∷ bs) = if text_eq k h then some d else find_blob h bs

abbrev pub is_some : {A : Type 0} → Option A → Bool
is_some none = false
is_some (some a) = true

unfoldable pub add_blob : Text → Text → Blobs → Blobs
unfolding find_blob
add_blob h d bs = if is_some (find_blob h bs) then bs else (h, d) ∷ bs

unfoldable pub remove_blob : Text → Blobs → Blobs
unfolding text_eq
remove_blob h [] = []
remove_blob h ((k, d) ∷ bs) =
    let rest = remove_blob h bs in if text_eq k h then rest else (k, d) ∷ rest

-- `LocalFSBlobStore.put`, `get`, `delete`, `exists`
unfoldable pub blob_put : Text → Text → Io (Unit {0})
unfolding interleave add_blob
blob_put h d w =
    let w' = interleave w in
    (
      ok tt,
      record w' { stores = record { meta = w'.stores.meta; blobs = add_blob h d w'.stores.blobs } },
    )

abbrev pub found : {A : Type 0} → Option A → Result A
found none = err not_found
found (some a) = ok a

-- The path of the empty hash is the base directory, which exists and is not a file.
abbrev pub blob_content : Text → Blobs → Result Text
blob_content [] bs = err is_a_directory
blob_content (c ∷ h) bs = found (find_blob (c ∷ h) bs)

unfoldable pub blob_get : Text → Io Text
unfolding interleave find_blob
blob_get h w = let w' = interleave w in (blob_content h w'.stores.blobs, w')

unfoldable pub blob_delete : Text → Io (Unit {0})
unfolding interleave remove_blob
blob_delete h w =
    let w' = interleave w in
    (
      ok tt,
      record w' {
        stores = record { meta = w'.stores.meta; blobs = remove_blob h w'.stores.blobs };
      },
    )

abbrev pub has_blob : Text → Blobs → Bool
has_blob [] bs = true
has_blob (c ∷ h) bs = is_some (find_blob (c ∷ h) bs)

unfoldable pub blob_exists : Text → Io Bool
unfolding interleave find_blob
blob_exists h w = let w' = interleave w in (ok (has_blob h w'.stores.blobs), w')

module _ (S : Setup) where
  unfoldable pub draw_id : Io Text
  draw_id w = (ok (S.new_id w.ids), record w { ids = w.ids + 1 })

  unfoldable pub read_clock : Io ℕ
  read_clock w = (ok (S.clock w.ticks), record w { ticks = w.ticks + 1 })
