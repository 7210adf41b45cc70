-- ===== src/Store/Latest.antt =====
-- Which version a lookup finds after a put.
use ai_vfs.Base.{
  ℕ, ◌+◌, ◌≤◌, ◌<◌, ◌≡◌, refl, true, none, some, List, [], ◌∷◌, Text, text_eq_iff, select, head?,
  arith, Bool-cases, inl, inr, All, sort_desc, insert_desc, All-sort_desc,
}
use ai_vfs.Models.{VersionMeta}
use ai_vfs.Store.Tables.{Meta}
use ai_vfs.Store.Files.{current_number}
use ai_vfs.Store.Versions.{is_version_of, has_version, newest_first, find_version}
use ai_vfs.Store.History.{IsHistory, has_version-cons}

-- Every version of a path has a number that the path has.
bounded-of_has :
    (ns path : Text) (b : ℕ) (vs : List VersionMeta)
    → ((n : ℕ) → has_version ns path n vs ≡ true → n ≤ b)
    → All (λ v. v.version_number ≤ b) (select (is_version_of ns path) vs)
unfolding select
bounded-of_has ns path b [] h = tt
bounded-of_has ns path b (v ∷ vs) h =
    let rest : All (λ v. v.version_number ≤ b) (select (is_version_of ns path) vs) =
      bounded-of_has ns path b vs (λ n p. h n (rw has_version-cons (ground arith))) in
    elim (Bool-cases (is_version_of ns path v)) [
      | inl e ↦ rw e (h v.version_number (rw (has_version-cons, e) (ground arith)), rest)
      | inr e ↦ rw e rest
    ]

insert_desc-newest :
    (v : VersionMeta) (b : ℕ) (vs : List VersionMeta)
    → b < v.version_number
    → All (λ u. u.version_number ≤ b) vs
    → head? (insert_desc (λ u. u.version_number) v vs) ≡ some v
unfolding insert_desc
insert_desc-newest v b [] lt h = refl
insert_desc-newest v b (u ∷ vs) lt h = ground arith

-- The version behind the current number of its path is the latest once it is added.
pub find_version-newest :
    (v : VersionMeta) (m : Meta)
    → IsHistory m
    → v.version_number ≡ current_number v.namespace_id v.file_path m.files + 1
    → find_version v.namespace_id v.file_path none (v ∷ m.versions) ≡ some v
unfolding find_version newest_first select sort_desc
find_version-newest v m history e =
    let ns = v.namespace_id in
    let path = v.file_path in
    let b = current_number ns path m.files in
    let own : is_version_of ns path v ≡ true =
      unfold is_version_of in ground (arith, text_eq_iff ns ns, text_eq_iff path path) in
    let bounded : All (λ u. u.version_number ≤ b) (select (is_version_of ns path) m.versions) =
      bounded-of_has ns path b m.versions (λ n p. ground (arith, history ns path n)) in
    rw own (
      insert_desc-newest v b _ (omega arith)
        (All-sort_desc (λ u. u.version_number) (λ u. u.version_number ≤ b) _ bounded))
