-- ===== src/CachedBlob/Laws.antt =====
-- The cached store implements the inner store: same answers, whatever the cache forgets.
use ai_vfs.Base.{
  ◌≡◌, refl, sym, ap, ◌∙◌, ◌⊎◌, inl, inr, false, Option, none, some, Text, text_eq, text_eq_refl,
}
use ai_vfs.Errors.{ok}
use ai_vfs.World.{Blobs, find_blob, add_blob, remove_blob, found, is_some}
use ai_vfs.Vfs.Read.Laws.{add_blob-Grows}
use ai_vfs.Gc.Blobs.{find_blob-remove_blob}
use ai_vfs.CachedBlob.{
  DiskCache, CachedStore, get, put, delete, exists, get_hit, fetched, exists_hit,
}

-- What the store relies on of the cache: it answers what was set last and not deleted, or nothing.
pub record CacheLaws {C : Type 0} (D : DiskCache C) : Type 0 where
  -- a lookup, where the access is not of interest
  pub after_get :
      (h k d : Text) (c : C) → (D.get k (D.get h c).1).0 ≡ some d → (D.get k c).0 ≡ some d
  pub after_set :
      (h d k x : Text) (c : C)
      → (D.get k (D.set h d c)).0 ≡ some x
      → ((h ≡ k) × (x ≡ d)) ⊎ ((D.get k c).0 ≡ some x)
  pub after_delete :
      (h k x : Text) (c : C)
      → (D.get k (D.delete h c)).0 ≡ some x
      → (text_eq h k ≡ false) × ((D.get k c).0 ≡ some x)

module _ {C : Type 0} (D : DiskCache C) where
  -- What the cache answers is what the inner store holds.
  pub record IsCoherent (s : CachedStore C) : Type 0 where
    pub agrees : (h d : Text) → (D.get h s.cache).0 ≡ some d → find_blob h s.inner ≡ some d

  module _ (laws : CacheLaws D) where
    touched-IsCoherent :
        (h : Text) (s : CachedStore C)
        → IsCoherent s
        → IsCoherent (record { inner = s.inner; cache = (D.get h s.cache).1 })
    touched-IsCoherent h s i = record {
      agrees = λ k d e. i.agrees k d (laws.after_get h k d s.cache e);
    }

    set-IsCoherent :
        (h d : Text) (s : CachedStore C)
        → find_blob h s.inner ≡ some d
        → IsCoherent s
        → IsCoherent (record { inner = s.inner; cache = D.set h d s.cache })
    set-IsCoherent h d s there i = record {
      agrees = λ k x e. elim (laws.after_set h d k x s.cache e) [
        | inl (same, value) ↦
            ap (λ j. find_blob j s.inner) (sym same) ∙ (there ∙ ap some (sym value))
        | inr old ↦ i.agrees k x old
      ];
    }

    fetched_correct :
        (h : Text) (o : Option Text) (s : CachedStore C)
        → find_blob h s.inner ≡ o
        → IsCoherent s
        → ((fetched D h (found o) s).0 ≡ found o)
          × ((fetched D h (found o) s).1.inner ≡ s.inner)
          × IsCoherent (fetched D h (found o) s).1
    fetched_correct h none s e i = (refl, refl, i)
    fetched_correct h (some d) s e i = (refl, refl, set-IsCoherent h d s e i)

    get_hit_correct :
        (h : Text) (hit : Option Text) (s : CachedStore C)
        → ((d : Text) → hit ≡ some d → find_blob h s.inner ≡ some d)
        → IsCoherent s
        → ((get_hit D h hit s).0 ≡ found (find_blob h s.inner))
          × ((get_hit D h hit s).1.inner ≡ s.inner)
          × IsCoherent (get_hit D h hit s).1
    get_hit_correct h none s agrees i = fetched_correct h (find_blob h s.inner) s refl i
    get_hit_correct h (some d) s agrees i = (rw (agrees d refl) refl, refl, i)

    exists_hit_correct :
        (h : Text) (hit : Option Text) (inner : Blobs)
        → ((d : Text) → hit ≡ some d → find_blob h inner ≡ some d)
        → exists_hit D h hit inner ≡ is_some (find_blob h inner)
    exists_hit_correct h none inner agrees = refl
    exists_hit_correct h (some d) inner agrees = rw (agrees d refl) refl

    -- For a coherent state and a cache that keeps to its laws: `get` and `exists` answer what the
    -- inner store answers and leave it as it was, and the state stays coherent.
    pub reads-refine :
        (h : Text) (s : CachedStore C)
        → IsCoherent s
        → ((get D h s).0 ≡ found (find_blob h s.inner))
          × ((exists D h s).0 ≡ ok (is_some (find_blob h s.inner)))
          × ((get D h s).1.inner ≡ s.inner)
          × ((exists D h s).1.inner ≡ s.inner)
          × IsCoherent (get D h s).1
          × IsCoherent (exists D h s).1
    unfolding get exists
    reads-refine h s i =
        let s' : CachedStore C = record { inner = s.inner; cache = (D.get h s.cache).1 } in
        let i' = touched-IsCoherent h s i in
        let (answer, same, coherent) =
          get_hit_correct h (D.get h s.cache).0 s' (λ d e. i.agrees h d e) i' in
        (
          answer,
          ap ok (exists_hit_correct h (D.get h s.cache).0 s.inner (λ d e. i.agrees h d e)),
          same,
          refl,
          coherent,
          i',
        )

    stored_once :
        (h d : Text) (b : Blobs)
        → (find_blob h b ≡ none) ⊎ (find_blob h b ≡ some d)
        → find_blob h (add_blob h d b) ≡ some d
    unfolding add_blob find_blob
    stored_once h d b (inl absent) = rw (absent, text_eq_refl h) refl
    stored_once h d b (inr there) = rw there there

    kept_blob :
        (h k : Text) (b : Blobs)
        → text_eq h k ≡ false
        → find_blob k (remove_blob h b) ≡ find_blob k b
    kept_blob h k b differ = rw (find_blob-remove_blob k h b, differ) refl

    -- For a coherent state and a cache that keeps to its laws: `put` and `delete` do to the inner store
    -- what they do without a cache, and the state stays coherent; for `put`, where the hash is not
    -- stored yet or is stored with the same content.
    pub writes-refine :
        (h d : Text) (s : CachedStore C)
        → IsCoherent s
        → (find_blob h s.inner ≡ none) ⊎ (find_blob h s.inner ≡ some d)
        → ((put D h d s).1.inner ≡ add_blob h d s.inner)
          × IsCoherent (put D h d s).1
          × ((delete D h s).1.inner ≡ remove_blob h s.inner)
          × IsCoherent (delete D h s).1
    unfolding put delete
    writes-refine h d s i content = (
      refl,
      set-IsCoherent h d (record { inner = add_blob h d s.inner; cache = s.cache })
          (stored_once h d s.inner content)
          (record { agrees = λ k x e. add_blob-Grows h d s.inner k x (i.agrees k x e) }),
      refl,
      record {
        agrees = λ k x e.
            let (differ, old) = laws.after_delete h k x s.cache e in
            kept_blob h k s.inner differ ∙ i.agrees k x old;
      },
    )
