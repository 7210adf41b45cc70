-- ===== src/Vfs/Retry.antt =====
-- The retry loops of `write` and `copy`: `for attempt in range(_MAX_WRITE_RETRIES)`.
use ai_vfs.Base.{ℕ, zero, suc, Bool, true, if◌then◌else◌}
use ai_vfs.Errors.{Result, ok, err, is_collision}
use ai_vfs.World.{World, Io}

abbrev pub max_write_retries : ℕ
max_write_retries = 5

-- After an attempt: a collision is raised if `final` (a CAS write, or the last attempt), and tried
-- again otherwise; any other outcome stands.
unfoldable pub or_retry : {A : Type 0} → Bool → Result A × World → Io A → Result A × World
unfolding is_collision
or_retry final (ok a, w) again = (ok a, w)
or_retry final (err e, w) again =
    if is_collision e then (if final then (err e, w) else again w) else (err e, w)

-- `first` is the first attempt and `again` each later one; `more` counts the later ones.
unfoldable pub retry : {A : Type 0} → ℕ → Bool → Io A → Io A → Io A
unfolding or_retry
retry zero cas first again w = or_retry true (first w) again
retry (suc more) cas first again w = or_retry cas (first w) (retry more cas again again)
