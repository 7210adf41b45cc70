-- ===== src/Vfs/Read/Laws.antt =====
-- What `read` and `delete` do in a world where no other task runs.
use ai_vfs.Base.{
  ℕ, ◌+◌, ◌≡◌, refl, ap, true, false, Option, none, some, List, [], ◌∷◌, Text, text_eq,
  text_eq_sound, text_eq_iff, find, any, codes, if◌then◌else◌, Bool-cases, Option-cases, inl, inr,
  arith,
}
use ai_vfs.Models.{FileMeta, VersionMeta}
use ai_vfs.Errors.{Result, Result-cases, ok, err, not_found, permission_denied}
use ai_vfs.Exec.{◌>>=◌}
use ai_vfs.Paths.Canonical.{require_canonical}
use ai_vfs.Store.Tables.{Meta}
use ai_vfs.Store.Files.{find_file, current_number, number_of}
use ai_vfs.Store.Versions.{has_version, find_version, is_version, is_version_of}
use ai_vfs.Store.Permissions.{allowed}
use ai_vfs.Store.History.{IsHistory, clash}
use ai_vfs.World.{World, Blobs, find_blob, blob_content, blob_get, add_blob}
use ai_vfs.Vfs.Quiet.{
  alone, check_perm_granted, check_perm_denied, get_version-alone, blob_get-alone,
}
use ai_vfs.Vfs.Added.{Added, numbered-Added}
use ai_vfs.Vfs.Read.{read, live_or_not_found}

-- The code behind a check that may raise.
abbrev pub after {ℓ} : {A B : Type ℓ} → Result A → Result B → Result B
after (ok a) r = r
after (err e) r = err e

-- The content that a version shows: none for no version and for a tombstone.
abbrev pub content_of : Blobs → Option VersionMeta → Result Text
content_of b none = err not_found
content_of b (some v) = if v.is_tombstone then err not_found else blob_content v.content_hash b

pub live_version :
    (v : VersionMeta) (w : World)
    → v.is_tombstone ≡ false
    → live_or_not_found (some v) w ≡ (ok v, w)
live_version v w live = rw live refl

live-alone :
    (m : Meta) (b : Blobs) (ids ticks : ℕ) (o : Option VersionMeta)
    → (live_or_not_found o >>= λ v. blob_get v.content_hash) (alone m b ids ticks)
      ≡ (content_of b o, alone m b ids ticks)
live-alone m b ids ticks none = refl
live-alone m b ids ticks (some v) = elim (Bool-cases v.is_tombstone) [
  | inl t ↦ rw t
  | inr t ↦ rw (t, blob_get-alone m b ids ticks v.content_hash)
]

-- The result of `read` where no other task runs: the guard, the permission, the version, its blob.
abbrev pub read_result : Text → Text → Text → Option ℕ → Meta → Blobs → Result Text
read_result ns path principal n m b = after (require_canonical path) (
    if allowed principal ns path (codes "read") m.permissions
    then content_of b (find_version ns path n m.versions)
    else err permission_denied)

-- Where no other task runs, `read` changes nothing and returns the content of the version with the
-- given number, or of the latest version; it raises the guard's error for a path that is not
-- canonical, PermissionDeniedError without the read permission, and NotFoundError for no such
-- version, a tombstone, or a blob that is not stored, and IsADirectoryError for a version with the
-- empty hash.
pub read-alone :
    (ns path principal : Text) (n : Option ℕ) (m : Meta) (b : Blobs) (ids ticks : ℕ)
    → read ns path principal n (alone m b ids ticks)
      ≡ (read_result ns path principal n m b, alone m b ids ticks)
unfolding read
read-alone ns path principal n m b ids ticks = elim (Result-cases (require_canonical path)) [
  | inl (x, e) ↦ elim (Bool-cases (allowed principal ns path (codes "read") m.permissions)) [
    | inl granted ↦
        rw
          (
            e,
            granted,
            check_perm_granted m b ids ticks principal ns path (codes "read") granted,
            get_version-alone m b ids ticks ns path n,
          )
          (live-alone m b ids ticks (find_version ns path n m.versions))
    | inr denied ↦
        rw (e, denied, check_perm_denied m b ids ticks principal ns path (codes "read") denied)
  ]
  | inr (x, e) ↦ rw e
]

-- A blob that is found stays found.
abbrev pub Grows : Blobs → Blobs → Type 0
Grows b b' = (h d : Text) → find_blob h b ≡ some d → find_blob h b' ≡ some d

blob_content-Grows :
    (b b' : Blobs) (h d : Text) → Grows b b' → blob_content h b ≡ ok d → blob_content h b' ≡ ok d
blob_content-Grows b b' [] d g e = cc e
blob_content-Grows b b' (c ∷ h) d g e = elim (Option-cases (find_blob (c ∷ h) b)) [
  | inl q ↦ cc (rw q at e)
  | inr (x, q) ↦ rw (g (c ∷ h) x q) (rw q at e)
]

shown :
    (b b' : Blobs)
    → Grows b b'
    → (v : VersionMeta) (d : Text) → content_of b (some v) ≡ ok d
    → content_of b' (some v) ≡ ok d
shown b b' g v d e = elim (Bool-cases v.is_tombstone) [
  | inl t ↦ cc (rw t at e)
  | inr t ↦ rw t (blob_content-Grows b b' v.content_hash d g (rw t at e))
]

cons-Grows : (h d : Text) (b : Blobs) → find_blob h b ≡ none → Grows b ((h, d) ∷ b)
unfolding find_blob
cons-Grows h d b absent h' d' e = elim (Bool-cases (text_eq h h')) [
  | inl q ↦ cc (e, ap (λ x. find_blob x b) (text_eq_sound h h' q), absent)
  | inr q ↦ rw q e
]

pub add_blob-Grows : (h d : Text) (b : Blobs) → Grows b (add_blob h d b)
unfolding add_blob
add_blob-Grows h d b = elim (Option-cases (find_blob h b)) [
  | inl e ↦ rw e (cons-Grows h d b e)
  | inr (x, e) ↦ rw e (λ h' d' q. q)
]

found_has :
    (ns path : Text) (n : ℕ) (vs : List VersionMeta) (u : VersionMeta)
    → find_version ns path (some n) vs ≡ some u
    → has_version ns path n vs ≡ true
unfolding find_version find has_version any
found_has ns path n [] u e = cc e
found_has ns path n (v ∷ vs) u e = elim (Bool-cases (is_version ns path n v)) [
  | inl q ↦ rw q refl
  | inr q ↦ rw q (found_has ns path n vs u (rw q at e))
]

own_number :
    (ns path : Text) (n : ℕ) (v : VersionMeta)
    → is_version ns path n v ≡ true
    → (v.namespace_id ≡ ns) × (v.file_path ≡ path) × (v.version_number ≡ n)
unfolding is_version is_version_of
own_number ns path n v e =
    ground (arith, text_eq_iff v.namespace_id ns, text_eq_iff v.file_path path)

-- A version that is stored does not have the key of one that can be added.
pub kept_version :
    (v : VersionMeta) (m : Meta)
    → clash v m ≡ false
    → (ns path : Text) (n : ℕ) (u : VersionMeta) → find_version ns path (some n) m.versions ≡ some u
    → is_version ns path n v ≡ false
kept_version v m c ns path n u e = elim (Bool-cases (is_version ns path n v)) [
  | inl q ↦
      let (p, r, t) = own_number ns path n v q in
      let stored : has_version v.namespace_id v.file_path v.version_number m.versions ≡ true =
        rw (p, r, t) (found_has ns path n m.versions u e) in
      ground arith
  | inr q ↦ q
]

kept_content :
    (v : VersionMeta) (m m' : Meta) (b b' : Blobs)
    → Added v m m'
    → clash v m ≡ false
    → Grows b b'
    → (ns path : Text) (n : ℕ) (d : Text)
    → content_of b (find_version ns path (some n) m.versions) ≡ ok d
    → content_of b' (find_version ns path (some n) m'.versions) ≡ ok d
kept_content v m m' b b' a c g ns path n d e =
    elim (Option-cases (find_version ns path (some n) m.versions)) [
      | inl q ↦ cc (rw q at e)
      | inr (u, q) ↦
          rw (numbered-Added v m m' a ns path n (kept_version v m c ns path n u q), q)
            (shown b b' g u d (rw q at e))
    ]

-- What was read of a numbered version is read of it after one more version.
pub read_result-Added :
    (v : VersionMeta) (m m' : Meta) (b b' : Blobs)
    → Added v m m'
    → clash v m ≡ false
    → Grows b b'
    → (ns path principal : Text) (n : ℕ) (d : Text)
    → read_result ns path principal (some n) m b ≡ ok d
    → read_result ns path principal (some n) m' b' ≡ ok d
read_result-Added v m m' b b' a c g ns path principal n d e =
    rw a.permissions (elim (Result-cases (require_canonical path)) [
      | inl (x, q) ↦ elim (Bool-cases (allowed principal ns path (codes "read") m.permissions)) [
        | inl granted ↦
            rw (q, granted) (kept_content v m m' b b' a c g ns path n d (rw (q, granted) at e))
        | inr denied ↦ cc (rw (q, denied) at e)
      ]
      | inr (x, q) ↦ cc (rw q at e)
    ])

-- No version has the number behind the current one of a file that is there.
pub next_is_free_behind :
    (ns path : Text) (m : Meta) (f : FileMeta)
    → IsHistory m
    → find_file ns path m.files ≡ some f
    → has_version ns path (f.current_version_number + 1) m.versions ≡ false
unfolding current_number number_of
next_is_free_behind ns path m f history e = rw (history, e) (ground arith)

content_of_ok :
    (b : Blobs) (o : Option VersionMeta) (d : Text)
    → content_of b o ≡ ok d
    → (v : VersionMeta) × (o ≡ some v)
      × (v.is_tombstone ≡ false)
      × (blob_content v.content_hash b ≡ ok d)
content_of_ok b none d e = cc e
content_of_ok b (some v) d e = elim (Bool-cases v.is_tombstone) [
  | inl t ↦ cc (rw t at e)
  | inr t ↦ (v, refl, t, rw t at e)
]

pub read_result_ok :
    (ns path reader : Text) (n : Option ℕ) (m : Meta) (b : Blobs) (d : Text)
    → read_result ns path reader n m b ≡ ok d
    → (require_canonical path ≡ ok tt)
      × (allowed reader ns path (codes "read") m.permissions ≡ true)
      × (v : VersionMeta) × (find_version ns path n m.versions ≡ some v)
      × (v.is_tombstone ≡ false)
      × (blob_content v.content_hash b ≡ ok d)
read_result_ok ns path reader n m b d e = elim (Result-cases (require_canonical path)) [
  | inl (x, q) ↦ elim (Bool-cases (allowed reader ns path (codes "read") m.permissions)) [
    | inl granted ↦
        let (v, there, live, shows) =
          content_of_ok b (find_version ns path n m.versions) d (rw (q, granted) at e) in
        (q, granted, v, there, live, shows)
    | inr denied ↦ cc (rw (q, denied) at e)
  ]
  | inr (x, q) ↦ cc (rw q at e)
]
