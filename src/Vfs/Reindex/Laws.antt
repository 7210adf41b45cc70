-- ===== src/Vfs/Reindex/Laws.antt =====
-- The rounds of `reindex`: after them every file of the scope has an artifact that decides.
use ai_vfs.Base.{
  ℕ, ◌+◌, ◌≡◌, refl, ap, sym, subst, ◌∙◌, true, false, Option, none, some, List, [], ◌∷◌, inl, inr,
  Text, All, if◌then◌else◌, Bool-cases, Option-cases,
}
use ai_vfs.Models.{FileMeta, VersionMeta}
use ai_vfs.Errors.{ok}
use ai_vfs.Store.Tables.{Meta}
use ai_vfs.Store.TextIndex.{NativeTextSearch}
use ai_vfs.Exec.{pure, ◌>>=◌}
use ai_vfs.World.{Blobs, Io, Setup, blob_content, blob_get, read_clock}
use ai_vfs.Vfs.Quiet.{alone, operation-ok, get_version-alone, blob_get-alone}
use ai_vfs.Vfs.Search.{SearchProvider}
use ai_vfs.Vfs.Reindex.{put_artifact, reindex_content, reindex_version, reindex_files}
use ai_vfs.Vfs.Reindex.Rewritten.{
  put_artifact-Refreshes, latest, IdsDecide, HasBlobs, IsSettled, IdsDecide-refreshed,
  HasBlobs-refreshed, IsSettled-itself, IsSettled-still,
}

nothing-IsSettled : (nts : NativeTextSearch) → IsSettled nts none
nothing-IsSettled nts = record { indexed = λ v e live. cc e }

tombstone-IsSettled :
    (nts : NativeTextSearch) (v : VersionMeta) → v.is_tombstone ≡ true → IsSettled nts (some v)
tombstone-IsSettled nts v t = record {
  indexed = λ w e live. let same : v ≡ w = cc e in cc (t, live, ap (λ x. x.is_tombstone) same);
}

module _ (P : SearchProvider) (S : Setup) (nts : NativeTextSearch) (b : Blobs) where
  dead_version :
      (f : FileMeta) (v : VersionMeta) (m : Meta) (ids ticks : ℕ)
      → v.is_tombstone ≡ true
      → reindex_version P S f (some v) (alone m b ids ticks) ≡ (ok 0, alone m b ids ticks)
  dead_version f v m ids ticks t = rw t refl

  stored_content :
      (h d : Text) (k : Text → Io ℕ) (m : Meta) (ids ticks : ℕ)
      → blob_content h b ≡ ok d
      → (blob_get h >>= k) (alone m b ids ticks) ≡ k d (alone m b ids ticks)
  stored_content h d k m ids ticks there = rw (blob_get-alone m b ids ticks h, there) refl

  content_written :
      (f : FileMeta) (v : VersionMeta) (d : Text) (m m' : Meta) (ids ticks : ℕ)
      → put_artifact nts v (S.clock ticks) (S.decode d) m ≡ (ok tt, m')
      → reindex_content P S (some nts) f v d (alone m b ids ticks)
        ≡ (ok 1, alone m' b ids (ticks + 1))
  unfolding read_clock
  content_written f v d m m' ids ticks e =
      rw
        (operation-ok m b ids (ticks + 1) (put_artifact nts v (S.clock ticks) (S.decode d)) tt m' e)
        refl

  -- One file whose latest version is live: its artifact is written.
  live_written :
      (is_native : S.native_text_search ≡ some nts) (f : FileMeta) (v : VersionMeta) (d : Text)
      (m m' : Meta) (ids ticks : ℕ)
      → v.is_tombstone ≡ false
      → blob_content v.content_hash b ≡ ok d
      → put_artifact nts v (S.clock ticks) (S.decode d) m ≡ (ok tt, m')
      → reindex_version P S f (some v) (alone m b ids ticks) ≡ (ok 1, alone m' b ids (ticks + 1))
  live_written is_native f v d m m' ids ticks live there e =
      let w = alone m b ids ticks in
      let body : Option NativeTextSearch → Io ℕ =
        λ o. blob_get v.content_hash >>= λ c. reindex_content P S o f v c in
      ap (λ t. (if t then pure 0 else body S.native_text_search) w) live
      ∙ ap (λ o. body o w) is_native
      ∙ stored_content v.content_hash d (reindex_content P S (some nts) f v) m ids ticks there
      ∙ content_written f v d m m' ids ticks e

  -- What one round of the loop leaves.
  pub record Round (ns : Text) (f : FileMeta) (m : Meta) (ids ticks : ℕ) : Type 0 where
    pub count : ℕ
    pub tables : Meta
    pub time : ℕ
    pub runs :
        reindex_version P S f (latest ns f.path m) (alone m b ids ticks)
        ≡ (ok count, alone tables b ids time)
    pub files : tables.files ≡ m.files
    pub permissions : tables.permissions ≡ m.permissions
    pub ids_decide : IdsDecide ns tables
    pub has_blobs : HasBlobs ns b tables
    pub settled : IsSettled nts (latest ns f.path tables)
    pub still : (q : Text) → IsSettled nts (latest ns q m) → IsSettled nts (latest ns q tables)

  unchanged-Round :
      (ns : Text) (f : FileMeta) (m : Meta) (ids ticks : ℕ)
      → IdsDecide ns m
      → HasBlobs ns b m
      → reindex_version P S f (latest ns f.path m) (alone m b ids ticks)
        ≡ (ok 0, alone m b ids ticks)
      → IsSettled nts (latest ns f.path m)
      → Round ns f m ids ticks
  unchanged-Round ns f m ids ticks decide blobs runs settled = record {
    count = 0;
    tables = m;
    time = ticks;
    runs = runs;
    files = refl;
    permissions = refl;
    ids_decide = decide;
    has_blobs = blobs;
    settled = settled;
    still = λ q h. h;
  }

  round :
      (is_native : S.native_text_search ≡ some nts) (ns : Text) (f : FileMeta) (m : Meta)
      (ids ticks : ℕ)
      → IdsDecide ns m
      → HasBlobs ns b m
      → Round ns f m ids ticks
  round is_native ns f m ids ticks decide blobs = elim (Option-cases (latest ns f.path m)) [
    | inl e ↦
        unchanged-Round ns f m ids ticks decide blobs (rw e refl)
          (subst (IsSettled nts) (sym e) (nothing-IsSettled nts))
    | inr (v, e) ↦ elim (Bool-cases v.is_tombstone) [
      | inl t ↦
          unchanged-Round ns f m ids ticks decide blobs
            (ap (λ o. reindex_version P S f o (alone m b ids ticks)) e
              ∙ dead_version f v m ids ticks t)
            (subst (IsSettled nts) (sym e) (tombstone-IsSettled nts v t))
      | inr live ↦
          let (d, there) = blobs.stored f.path v e live in
          let (m', put, r) = put_artifact-Refreshes nts v (S.clock ticks) (S.decode d) m in
          record {
            count = 1;
            tables = m';
            time = ticks + 1;
            runs =
                ap (λ o. reindex_version P S f o (alone m b ids ticks)) e
                ∙ live_written is_native f v d m m' ids ticks live there put;
            files = r.files;
            permissions = r.permissions;
            ids_decide = IdsDecide-refreshed nts ns v m m' r decide;
            has_blobs = HasBlobs-refreshed nts ns v m m' r b blobs;
            settled = IsSettled-itself nts ns v m m' r f.path e;
            still = IsSettled-still nts ns v m m' r decide f.path e;
          }
    ]
  ]

  -- What the loop leaves: every file of the list is settled.
  pub record Loop (ns : Text) (fs : List FileMeta) (m : Meta) (ids ticks : ℕ) : Type 0 where
    pub count : ℕ
    pub tables : Meta
    pub time : ℕ
    pub runs : reindex_files P S ns fs (alone m b ids ticks) ≡ (ok count, alone tables b ids time)
    pub files : tables.files ≡ m.files
    pub settled : All (λ f. IsSettled nts (latest ns f.path tables)) fs
    pub still : (q : Text) → IsSettled nts (latest ns q m) → IsSettled nts (latest ns q tables)

  pub loop :
      (is_native : S.native_text_search ≡ some nts) (ns : Text) (fs : List FileMeta) (m : Meta)
      (ids ticks : ℕ)
      → IdsDecide ns m
      → HasBlobs ns b m
      → Loop ns fs m ids ticks
  unfolding reindex_files
  loop is_native ns [] m ids ticks decide blobs = record {
    count = 0;
    tables = m;
    time = ticks;
    runs = refl;
    files = refl;
    settled = tt;
    still = λ q h. h;
  }
  loop is_native ns (f ∷ fs) m ids ticks decide blobs =
      let r = round is_native ns f m ids ticks decide blobs in
      let l = loop is_native ns fs r.tables ids r.time r.ids_decide r.has_blobs in
      record {
        count = r.count + l.count;
        tables = l.tables;
        time = l.time;
        runs = rw (get_version-alone m b ids ticks ns f.path none, r.runs, l.runs) refl;
        files = l.files ∙ r.files;
        settled = (l.still f.path r.settled, l.settled);
        still = λ q h. l.still q (r.still q h);
      }
