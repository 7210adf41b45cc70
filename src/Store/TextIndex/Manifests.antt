-- ===== src/Store/TextIndex/Manifests.antt =====
-- Which version a lookup finds after the manifest of a version has been rewritten.
use ai_vfs.Base.{
  ℕ, ◌≡◌, refl, ap, Bool, Option, none, some, List, [], ◌∷◌, Text, text_eq, text_eq_refl, select,
  head?, map, sort_desc, insert_desc, ltb, if◌then◌else◌, Bool-cases, inl, inr,
}
use ai_vfs.Models.{VersionMeta, ArtifactDict, Manifest}
use ai_vfs.Store.Versions.{is_version_of, newest_first, find_version}
use ai_vfs.Store.TextIndex.{set_artifact, get_artifact, update_manifest}

abbrev pub map_option : {A B : Type 0} → (A → B) → Option A → Option B
map_option f none = none
map_option f (some a) = some (f a)

module _ {A : Type 0} (g : A → A) where
  select-map :
      (p : A → Bool) (xs : List A)
      → ((x : A) → p (g x) ≡ p x)
      → select p (map g xs) ≡ map g (select p xs)
  unfolding select
  select-map p [] same = refl
  select-map p (x ∷ xs) same = elim (Bool-cases (p x)) [
    | inl e ↦ rw (same x, e) (ap (λ t. g x ∷ t) (select-map p xs same))
    | inr e ↦ rw (same x, e) (select-map p xs same)
  ]

  module _ (key : A → ℕ) (same : (x : A) → key (g x) ≡ key x) where
    insert_desc-map :
        (x : A) (xs : List A) → insert_desc key (g x) (map g xs) ≡ map g (insert_desc key x xs)
    unfolding insert_desc
    insert_desc-map x [] = refl
    insert_desc-map x (y ∷ ys) = elim (Bool-cases (ltb (key x) (key y))) [
      | inl e ↦ rw (same x, same y, e) (ap (λ t. g y ∷ t) (insert_desc-map x ys))
      | inr e ↦ rw (same x, same y, e) refl
    ]

    sort_desc-map : (xs : List A) → sort_desc key (map g xs) ≡ map g (sort_desc key xs)
    unfolding sort_desc
    sort_desc-map [] = refl
    sort_desc-map (x ∷ xs) = rw (sort_desc-map xs) (insert_desc-map x (sort_desc key xs))

head?-map : {A : Type 0} (g : A → A) (xs : List A) → head? (map g xs) ≡ map_option g (head? xs)
head?-map g [] = refl
head?-map g (x ∷ xs) = refl

-- The change that `update_manifest` makes to a version.
abbrev pub touched : Text → (Manifest → Manifest) → VersionMeta → VersionMeta
touched i f v = if text_eq v.id i then record v { search_meta = f v.search_meta } else v

update_manifest-map :
    (i : Text) (f : Manifest → Manifest) (vs : List VersionMeta)
    → update_manifest i f vs ≡ map (touched i f) vs
unfolding update_manifest
update_manifest-map i f [] = refl
update_manifest-map i f (v ∷ vs) = ap (λ t. touched i f v ∷ t) (update_manifest-map i f vs)

-- What a version keeps when its manifest is rewritten.
pub record SameVersion (v u : VersionMeta) : Type 0 where
  pub id : u.id ≡ v.id
  pub namespace_id : u.namespace_id ≡ v.namespace_id
  pub file_path : u.file_path ≡ v.file_path
  pub version_number : u.version_number ≡ v.version_number
  pub content_hash : u.content_hash ≡ v.content_hash
  pub is_tombstone : u.is_tombstone ≡ v.is_tombstone

pub touched-SameVersion :
    (i : Text) (f : Manifest → Manifest) (v : VersionMeta) → SameVersion v (touched i f v)
touched-SameVersion i f v = elim (Bool-cases (text_eq v.id i)) [
  | inl e ↦ rw e (record {
    id = refl;
    namespace_id = refl;
    file_path = refl;
    version_number = refl;
    content_hash = refl;
    is_tombstone = refl;
  })
  | inr e ↦ rw e (record {
    id = refl;
    namespace_id = refl;
    file_path = refl;
    version_number = refl;
    content_hash = refl;
    is_tombstone = refl;
  })
]

-- The latest version of a path after a rewrite is the one before, rewritten.
pub find_version-update_manifest :
    (i : Text) (f : Manifest → Manifest) (ns path : Text) (vs : List VersionMeta)
    → find_version ns path none (update_manifest i f vs)
      ≡ map_option (touched i f) (find_version ns path none vs)
unfolding find_version newest_first is_version_of
find_version-update_manifest i f ns path vs =
    let g = touched i f in
    let same_path : (v : VersionMeta) → is_version_of ns path (g v) ≡ is_version_of ns path v = λ v.
      rw ((touched-SameVersion i f v).namespace_id, (touched-SameVersion i f v).file_path) refl in
    let same_number : (v : VersionMeta) → (g v).version_number ≡ v.version_number =
      λ v. (touched-SameVersion i f v).version_number in
    rw
      (
        update_manifest-map i f vs,
        select-map g (is_version_of ns path) vs same_path,
        sort_desc-map g (λ v. v.version_number) same_number (select (is_version_of ns path) vs),
      )
      (head?-map g _)

-- What was set is got.
pub get_artifact-set_artifact :
    (k : Text) (d : ArtifactDict) (s : Manifest) → get_artifact k (set_artifact k d s) ≡ some d
unfolding get_artifact set_artifact
get_artifact-set_artifact k d [] = rw (text_eq_refl k) refl
get_artifact-set_artifact k d ((j, e) ∷ s) = elim (Bool-cases (text_eq j k)) [
  | inl q ↦ rw q (rw q refl)
  | inr q ↦ rw q (rw q (get_artifact-set_artifact k d s))
]
