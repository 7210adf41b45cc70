-- ===== src/CachedBlob.antt =====
-- src/vfs/stores/cached_blob.py: a blob store with a disk cache in front of it. The cache is
-- `diskcache.Cache`, a parameter that may forget any entry at any time.
pub mod Laws
use ai_vfs.Base.{Bool, true, false, Option, none, some, List, Text, map}
use ai_vfs.Errors.{Result, ok, err}
use ai_vfs.World.{Blobs, find_blob, add_blob, remove_blob, found, is_some}

-- The operations of `diskcache.Cache`; a `get` also records the access.
pub record DiskCache (C : Type 0) : Type 0 where
  pub get : Text → C → Option Text × C
  pub set : Text → Text → C → C
  pub delete : Text → C → C

-- `_inner` and `_cache`
pub record CachedStore (C : Type 0) : Type 0 where
  pub inner : Blobs
  pub cache : C

module _ {C : Type 0} (D : DiskCache C) where
  unfoldable pub put : Text → Text → CachedStore C → Result (Unit {0}) × CachedStore C
  unfolding add_blob
  put h d s = (ok tt, record { inner = add_blob h d s.inner; cache = D.set h d s.cache })

  -- `get` behind a miss of the cache
  abbrev pub fetched : Text → Result Text → CachedStore C → Result Text × CachedStore C
  fetched h (ok d) s = (ok d, record { inner = s.inner; cache = D.set h d s.cache })
  fetched h (err e) s = (err e, s)

  abbrev pub get_hit : Text → Option Text → CachedStore C → Result Text × CachedStore C
  get_hit h (some d) s = (ok d, s)
  get_hit h none s = fetched h (found (find_blob h s.inner)) s

  unfoldable pub get : Text → CachedStore C → Result Text × CachedStore C
  get h s = let (hit, c) = D.get h s.cache in get_hit h hit (record { inner = s.inner; cache = c })

  unfoldable pub delete : Text → CachedStore C → Result (Unit {0}) × CachedStore C
  delete h s = (ok tt, record { inner = remove_blob h s.inner; cache = D.delete h s.cache })

  abbrev pub exists_hit : Text → Option Text → Blobs → Bool
  exists_hit h (some d) inner = true
  exists_hit h none inner = is_some (find_blob h inner)

  unfoldable pub exists : Text → CachedStore C → Result Bool × CachedStore C
  exists h s =
      let (hit, c) = D.get h s.cache in
      (ok (exists_hit h hit s.inner), record { inner = s.inner; cache = c })

  -- `list_hashes` enumerates the inner store.
  unfoldable pub list_hashes : CachedStore C → List Text
  list_hashes s = map (λ p. p.0) s.inner
