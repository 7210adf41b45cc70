-- ===== src/Store/History.antt =====
-- The version history of a path: its numbers run from 1 to the file's current number, and a put
-- that succeeds takes the next one.
use ai_vfs.Base.{
  ℕ, ◌+◌, ◌≤◌, ◌≡◌, refl, sym, ap, subst, Bool, true, false, ◌&&◌, ◌||◌, Option, none, some, List,
  [], ◌∷◌, Text, text_eq_iff, text_eq_refl, any, find, leb, ◌==◌, if◌then◌else◌, arith, Bool-cases,
  inl, inr,
}
use ai_vfs.Models.{FileMeta, VersionMeta}
use ai_vfs.Errors.{ok}
use ai_vfs.Store.Tables.{Meta}
use ai_vfs.Store.Files.{is_file, find_file, upsert_file, current_number, current_number-upsert_file}
use ai_vfs.Store.Versions.{
  is_version_of, is_version, has_version, has_id, insert_version, as_collision, pointer, cas_files,
  put_unconditional, put_cas, put_version,
}

-- The numbers of a path's versions are exactly 1, …, the current number of its file.
abbrev pub IsHistory : Meta → Type 0
IsHistory m =
    (ns path : Text) (n : ℕ)
    → has_version ns path n m.versions ≡ (leb 1 n && leb n (current_number ns path m.files))

-- `v` is behind the next number of its path, or takes it.
abbrev pub IsNumbered : VersionMeta → Meta → Type 0
IsNumbered v m =
    (1 ≤ v.version_number)
    × (v.version_number ≤ current_number v.namespace_id v.file_path m.files + 1)

pub has_version-cons :
    (ns path : Text) (n : ℕ) (v : VersionMeta) (vs : List VersionMeta)
    → has_version ns path n (v ∷ vs)
      ≡ ((is_version_of ns path v && v.version_number == n) || has_version ns path n vs)
unfolding has_version is_version any
has_version-cons ns path n v vs = refl

pub current_number-cas_files :
    (ns path : Text) (v : VersionMeta) (e : ℕ) (fs : List FileMeta)
    → current_number ns path (cas_files v e fs).1 ≡ (
        if is_version_of ns path v && (cas_files v e fs).0
        then v.version_number
        else current_number ns path fs)
unfolding current_number find_file cas_files is_version_of is_file find
current_number-cas_files ns path v e [] = ground arith
current_number-cas_files ns path v e (f ∷ fs) = ground (
  arith,
  current_number-cas_files ns path v e fs,
  text_eq_iff f.namespace_id ns,
  text_eq_iff f.path path,
  text_eq_iff v.namespace_id ns,
  text_eq_iff v.file_path path,
  text_eq_iff f.namespace_id v.namespace_id,
  text_eq_iff f.path v.file_path,
)

-- The compare-and-swap matches a row only while the file is at the expected number.
pub cas_files-hit :
    (v : VersionMeta) (e : ℕ) (fs : List FileMeta)
    → (cas_files v e fs).0 ≡ true
    → current_number v.namespace_id v.file_path fs ≡ e
unfolding current_number find_file cas_files is_file find
cas_files-hit v e [] h = ground arith
cas_files-hit v e (f ∷ fs) h = ground (arith, cas_files-hit v e fs)

abbrev pub clash : VersionMeta → Meta → Bool
clash v m =
    has_id v.id m.versions || has_version v.namespace_id v.file_path v.version_number m.versions

put_unconditional-ok :
    (v : VersionMeta) (m m' : Meta)
    → put_unconditional v m ≡ (ok tt, m')
    → (clash v m ≡ false)
      × (m' ≡ record m { versions = v ∷ m.versions; files = upsert_file (pointer v) m.files })
unfolding put_unconditional
put_unconditional-ok v m m' e = elim (Bool-cases (clash v m)) [
  | inl c ↦ cc (rw (c, insert_version, as_collision) at e)
  | inr c ↦ (c, sym (ap (λ x. x.1) (rw c at e)))
]

pub put_version-fresh :
    (v : VersionMeta) (m : Meta)
    → clash v m ≡ false
    → put_version v none m
      ≡ (ok tt, record m { versions = v ∷ m.versions; files = upsert_file (pointer v) m.files })
unfolding put_version
put_version-fresh v m e = rw e

pub put_cas-ok :
    (v : VersionMeta) (expected : ℕ) (m m' : Meta)
    → put_cas v expected m ≡ (ok tt, m')
    → (clash v m ≡ false)
      × ((cas_files v expected m.files).0 ≡ true)
      × (m' ≡ record m { versions = v ∷ m.versions; files = (cas_files v expected m.files).1 })
unfolding put_cas
put_cas-ok v expected m m' e = elim (Bool-cases (cas_files v expected m.files).0) [
  | inl h ↦ elim (Bool-cases (clash v m)) [
    | inl c ↦ cc (rw (h, c) at e)
    | inr c ↦ (c, h, sym (ap (λ x. x.1) (rw (h, c) at e)))
  ]
  | inr h ↦ cc (rw h at e)
]

module _ (v : VersionMeta) (m : Meta) where
  -- What the two branches leave: the version added, the pointer at its number, and no version of
  -- that number before.
  pub record Put (m' : Meta) : Type 0 where
    pub versions : m'.versions ≡ v ∷ m.versions
    pub fresh : has_version v.namespace_id v.file_path v.version_number m.versions ≡ false
    pub files :
        (ns path : Text)
        → current_number ns path m'.files
          ≡ (if is_version_of ns path v then v.version_number else current_number ns path m.files)

  put_unconditional-Put : (m' : Meta) → put_unconditional v m ≡ (ok tt, m') → Put m'
  put_unconditional-Put m' e =
      let (c, q) = put_unconditional-ok v m m' e in
      subst Put (sym q) (record {
        versions = refl;
        fresh = ground arith;
        files = λ ns path.
            unfold is_file is_version_of in current_number-upsert_file ns path (pointer v) m.files;
      })

  put_cas-Put : (expected : ℕ) (m' : Meta) → put_cas v expected m ≡ (ok tt, m') → Put m'
  put_cas-Put expected m' e =
      let (c, h, q) = put_cas-ok v expected m m' e in
      subst Put (sym q) (record {
        versions = refl;
        fresh = ground arith;
        files = λ ns path. ground (arith, current_number-cas_files ns path v expected m.files);
      })

  pub put_version-Put :
      (expected : Option ℕ) (m' : Meta) → put_version v expected m ≡ (ok tt, m') → Put m'
  unfolding put_version
  put_version-Put none m' e = put_unconditional-Put m' e
  put_version-Put (some expected) m' e = put_cas-Put expected m' e

module _ (v : VersionMeta) (m : Meta) (history : IsHistory m) (numbered : IsNumbered v m) where
  next_number :
      has_version v.namespace_id v.file_path v.version_number m.versions ≡ false
      → v.version_number ≡ current_number v.namespace_id v.file_path m.files + 1
  next_number fresh =
      ground (arith, history v.namespace_id v.file_path v.version_number, numbered.0, numbered.1)

  Put-IsHistory : (m' : Meta) → Put v m m' → IsHistory m'
  unfolding is_version_of
  Put-IsHistory m' p ns path n =
      rw (p.versions, has_version-cons, p.files ns path, history ns path n)
        (ground
          (arith, text_eq_iff v.namespace_id ns, text_eq_iff v.file_path path, next_number p.fresh))

  -- A put that succeeds stores its version in front of the others, takes the number behind the
  -- current one of its path, which becomes the current one, and keeps the numbers of every path
  -- gapless, if the caller's number is positive and at most one past the current number.
  pub put_version-IsHistory :
      (expected : Option ℕ) (m' : Meta)
      → put_version v expected m ≡ (ok tt, m')
      → IsHistory m'
        × (v.version_number ≡ current_number v.namespace_id v.file_path m.files + 1)
        × (m'.versions ≡ v ∷ m.versions)
        × (current_number v.namespace_id v.file_path m'.files ≡ v.version_number)
  unfolding is_version_of
  put_version-IsHistory expected m' e =
      let p = put_version-Put v m expected m' e in
      (
        Put-IsHistory m' p,
        next_number p.fresh,
        p.versions,
        rw
            (
              p.files v.namespace_id v.file_path,
              text_eq_refl v.namespace_id,
              text_eq_refl v.file_path,
            )
            refl,
      )
