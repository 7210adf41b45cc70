-- ===== src/Store/Files.antt =====
-- The `files` table: `put_file`, `get_file`, `delete_file`, `list_dir`.
use ai_vfs.Base.{
  ℕ, ◌≡◌, Bool, not, ◌&&◌, ◌||◌, Option, none, some, List, [], ◌∷◌, Text, text_eq, text_eq_iff,
  select, find, has_char, drop, length, if◌then◌else◌, arith,
}
use ai_vfs.Models.{FileMeta}
use ai_vfs.Exec.{gets, modify}
use ai_vfs.Paths.Posix.{slash}
use ai_vfs.Paths.Like.{LikeOperator, list_pattern}
use ai_vfs.Store.Tables.{Sql}

-- `files.c.namespace_id == ns, files.c.path == path`
unfoldable pub is_file : Text → Text → FileMeta → Bool
unfolding text_eq
is_file ns path f = text_eq f.namespace_id ns && text_eq f.path path

unfoldable pub find_file : Text → Text → List FileMeta → Option FileMeta
unfolding is_file find
find_file ns path = find (is_file ns path)

-- `_upsert(files, …, index_elements=["namespace_id", "path"], set_=[…])`: `created_at` is not
-- among the columns that a conflict overwrites.
unfoldable pub upsert_file : FileMeta → List FileMeta → List FileMeta
unfolding is_file
upsert_file f [] = f ∷ []
upsert_file f (g ∷ gs) =
    if is_file f.namespace_id f.path g
    then record g {
      current_version_id = f.current_version_id;
      current_version_number = f.current_version_number;
      updated_at = f.updated_at;
      is_deleted = f.is_deleted;
    }
      ∷ gs
    else g ∷ upsert_file f gs

unfoldable pub put_file : FileMeta → Sql (Unit {0})
unfolding upsert_file
put_file f = modify (λ m. record m { files = upsert_file f m.files })

unfoldable pub get_file : Text → Text → Sql (Option FileMeta)
unfolding find_file
get_file ns path = gets (λ m. find_file ns path m.files)

unfoldable pub delete_file : Text → Text → Sql (Unit {0})
unfolding is_file select
delete_file ns path =
    modify (λ m. record m { files = select (λ f. not (is_file ns path f)) m.files })

module _ (L : LikeOperator) where
  unfoldable pub in_dir : Text → Text → FileMeta → Bool
  unfolding list_pattern text_eq
  in_dir ns path_prefix f =
      text_eq f.namespace_id ns && (L.like (list_pattern path_prefix) f.path && not f.is_deleted)

  -- A non-recursive listing leaves out the paths with a slash behind the prefix.
  unfoldable pub is_listed : Text → Bool → FileMeta → Bool
  unfolding has_char
  is_listed path_prefix recursive f =
      recursive || not (has_char slash (drop (length path_prefix) f.path))

  unfoldable pub list_dir : Text → Text → Bool → Sql (List FileMeta)
  unfolding in_dir is_listed select
  list_dir ns path_prefix recursive =
      gets (λ m. select (is_listed path_prefix recursive) (select (in_dir ns path_prefix) m.files))

-- The number that the file's current-version pointer shows; 0 where there is no file.
unfoldable pub number_of : Option FileMeta → ℕ
number_of none = 0
number_of (some f) = f.current_version_number

unfoldable pub current_number : Text → Text → List FileMeta → ℕ
unfolding number_of
current_number ns path files = number_of (find_file ns path files)

-- What a lookup finds after an upsert.
pub current_number-upsert_file :
    (ns path : Text) (f : FileMeta) (fs : List FileMeta)
    → current_number ns path (upsert_file f fs)
      ≡ (if is_file ns path f then f.current_version_number else current_number ns path fs)
unfolding current_number find_file upsert_file is_file
current_number-upsert_file ns path f [] = ground arith
current_number-upsert_file ns path f (g ∷ gs) = ground (
  arith,
  current_number-upsert_file ns path f gs,
  text_eq_iff g.namespace_id ns,
  text_eq_iff g.path path,
  text_eq_iff f.namespace_id ns,
  text_eq_iff f.path path,
  text_eq_iff g.namespace_id f.namespace_id,
  text_eq_iff g.path f.path,
)
