-- ===== src/Errors.antt =====
-- src/vfs/errors.py: the exceptions that the operations raise, as values.
use ai_vfs.Base.{Bool, true, false, ◌≡◌, refl, ◌⊎◌, inl, inr}

-- The classes of errors.py, and the built-in and driver exceptions that the code raises or lets
-- through (`ValueError`, `TypeError`, `AttributeError`, `ImportError`, SQLAlchemy's `IntegrityError`,
-- `IsADirectoryError`).
pub data Error : Type 0 where
  conflict version_collision permission_denied not_found read_budget_exceeded : Error
  search_type_unsupported index_unavailable reindex_required : Error
  operation_budget_exceeded resource_limit_exceeded unsupported_operation : Error
  value_error type_error attribute_error import_error integrity_error timeout : Error
  is_a_directory : Error

pub data Result {ℓ} (A : Type ℓ) : Type ℓ where
  ok : A → Result A
  err : Error → Result A

-- `if not test: raise e`
abbrev pub require : Bool → Error → Result (Unit {0})
require true e = ok tt
require false e = err e

-- `except VersionCollisionError`
unfoldable pub is_collision : Error → Bool
is_collision version_collision = true
is_collision _ = false

pub Result-cases :
    {A : Type 0} (r : Result A) → ((a : A) × (r ≡ ok a)) ⊎ ((e : Error) × (r ≡ err e))
Result-cases (ok a) = inl (a, refl)
Result-cases (err e) = inr (e, refl)
