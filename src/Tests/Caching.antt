-- ===== src/Tests/Caching.antt =====
-- The cached blob store over an association list as the cache.
use ai_vfs.Base.{
  ◌≡◌, ◌⊎◌, inl, inr, false, some, ◌∷◌, Text, text_eq, text_eq_sound, Bool-cases, codes,
}
use ai_vfs.Errors.{ok}
use ai_vfs.World.{Blobs, find_blob, add_blob, remove_blob, found, is_some}
use ai_vfs.Gc.Blobs.{find_blob-remove_blob}
use ai_vfs.CachedBlob.{DiskCache, CachedStore, get, put, delete, exists}
use ai_vfs.CachedBlob.Laws.{CacheLaws, IsCoherent, reads-refine, writes-refine}
use ai_vfs.Tests.Scene.{hi, blobs, no_blob}

abbrev disk : DiskCache Blobs
disk = record {
  get = λ h c. (find_blob h c, c);
  set = λ h d c. (h, d) ∷ c;
  delete = λ h c. remove_blob h c;
}

set_entry :
    (h d k x : Text) (c : Blobs)
    → find_blob k ((h, d) ∷ c) ≡ some x
    → ((h ≡ k) × (x ≡ d)) ⊎ (find_blob k c ≡ some x)
unfolding find_blob
set_entry h d k x c e = elim (Bool-cases (text_eq h k)) [
  | inl q ↦ inl (text_eq_sound h k q, cc (rw q at e))
  | inr q ↦ inr (rw q at e)
]

deleted_entry :
    (h k x : Text) (c : Blobs)
    → find_blob k (remove_blob h c) ≡ some x
    → (text_eq h k ≡ false) × (find_blob k c ≡ some x)
deleted_entry h k x c e = elim (Bool-cases (text_eq h k)) [
  | inl q ↦ cc (rw (find_blob-remove_blob k h c, q) at e)
  | inr q ↦ (q, rw (find_blob-remove_blob k h c, q) at e)
]

disk-CacheLaws : CacheLaws disk
disk-CacheLaws = record {
  after_get = λ h k d c e. e;
  after_set = set_entry;
  after_delete = deleted_entry;
}

-- One of the stored blobs is cached.
abbrev warm : CachedStore Blobs
warm = record { inner = blobs; cache = blobs }

warm-IsCoherent : IsCoherent disk warm
warm-IsCoherent = record { agrees = λ h d e. e }

reads-refine_example :
    ((get disk (35 ∷ hi) warm).0 ≡ found (find_blob (35 ∷ hi) blobs))
    × ((exists disk (35 ∷ hi) warm).0 ≡ ok (is_some (find_blob (35 ∷ hi) blobs)))
    × ((get disk (35 ∷ hi) warm).1.inner ≡ blobs)
    × ((exists disk (35 ∷ hi) warm).1.inner ≡ blobs)
    × IsCoherent disk (get disk (35 ∷ hi) warm).1
    × IsCoherent disk (exists disk (35 ∷ hi) warm).1
reads-refine_example = reads-refine disk disk-CacheLaws (35 ∷ hi) warm warm-IsCoherent

writes-refine_example :
    let h = 35 ∷ codes "bye" in
    ((put disk h (codes "bye") warm).1.inner ≡ add_blob h (codes "bye") blobs)
    × IsCoherent disk (put disk h (codes "bye") warm).1
    × ((delete disk h warm).1.inner ≡ remove_blob h blobs)
    × IsCoherent disk (delete disk h warm).1
writes-refine_example =
    writes-refine disk disk-CacheLaws (35 ∷ codes "bye") (codes "bye") warm warm-IsCoherent no_blob
