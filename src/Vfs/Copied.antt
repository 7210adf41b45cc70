-- ===== src/Vfs/Copied.antt =====
-- What `copy` leaves in a world where no other task runs.
use ai_vfs.Base.{ℕ, ◌+◌, ◌≡◌, refl, true, false, none, some, [], ◌∷◌, Text, codes}
use ai_vfs.Models.{VersionMeta, text}
use ai_vfs.Errors.{Result, ok}
use ai_vfs.Paths.Canonical.{require_canonical}
use ai_vfs.Store.Tables.{Meta}
use ai_vfs.Store.Files.{find_file}
use ai_vfs.Store.Versions.{has_id, find_version}
use ai_vfs.Store.Permissions.{allowed}
use ai_vfs.Store.History.{IsHistory}
use ai_vfs.World.{Blobs, Setup, draw_id, read_clock}
use ai_vfs.Vfs.Audit.{audit_copy}
use ai_vfs.Vfs.Quiet.{
  alone, check_perm_granted, get_file-alone, get_version-alone, audit_event-SameFiles, retry_first,
  logged, continue-logged,
}
use ai_vfs.Vfs.Added.{Added, put, put_version-alone}
use ai_vfs.Vfs.Write.{next_version_number}
use ai_vfs.Vfs.Write.Laws.{next_is_free}
use ai_vfs.Vfs.Transfer.{copy, copy_attempt, copied}
use ai_vfs.Vfs.Read.Laws.{live_version}

module _ (S : Setup) (ns src dst principal : Text) (m : Meta) (b : Blobs) (ids ticks : ℕ)
    (history : IsHistory m) (fresh : has_id (S.new_id ids) m.versions ≡ false)
    (source : VersionMeta) where
  abbrev pub copy_of : VersionMeta
  copy_of =
      copied (S.new_id ids) ns dst (next_version_number (find_file ns dst m.files)) (S.clock ticks)
        principal source

  copy_attempt-alone :
      copy_attempt S ns dst principal none source (alone m b ids ticks)
      ≡ (ok copy_of, alone (put copy_of m) b (ids + 1) (ticks + 1))
  unfolding copy_attempt draw_id read_clock
  copy_attempt-alone = rw (
    get_file-alone m b ids ticks ns dst,
    put_version-alone copy_of m b (ids + 1) (ticks + 1)
        (rw (fresh, next_is_free ns dst m history) refl),
  )

  pub copy-Added :
      require_canonical src ≡ ok tt
      → require_canonical dst ≡ ok tt
      → allowed principal ns src (codes "read") m.permissions ≡ true
      → allowed principal ns dst (codes "write") m.permissions ≡ true
      → find_version ns src none m.versions ≡ some source
      → source.is_tombstone ≡ false
      → (r : Result (Unit {0})) × (m' : Meta) × (copy S ns src dst principal none
            (alone m b ids ticks)
          ≡ (logged r copy_of, alone m' b (ids + 1 + 1) (ticks + 1 + 1)))
        × Added copy_of m m'
  unfolding copy audit_copy
  copy-Added cs cd readable writable e live =
      let (r, m₂, g, same, logs) =
        audit_event-SameFiles (put copy_of m) b (ids + 1) (ticks + 1) S ns principal (codes "copy")
          (some dst) (some (S.new_id ids)) ((codes "src_path", text src) ∷ []) in
      (
        r,
        m₂,
        rw
            (
              cs,
              cd,
              check_perm_granted m b ids ticks principal ns src (codes "read") readable,
              check_perm_granted m b ids ticks principal ns dst (codes "write") writable,
              get_version-alone m b ids ticks ns src none,
              e,
              live_version source (alone m b ids ticks) live,
              retry_first 4 false _ (copy_attempt S ns dst principal none source) _ _ _
                  copy_attempt-alone,
              g,
            )
            (continue-logged r copy_of _),
        record { versions = same.versions; files = same.files; permissions = same.permissions },
      )
