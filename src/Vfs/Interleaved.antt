-- ===== src/Vfs/Interleaved.antt =====
-- Operations whose steps alternate with those of other tasks: what holds of each step whatever
-- the other tasks do in between.
pub mod Steps
pub mod Writes
pub mod Updates
pub mod Laws
pub mod Cas
use ai_vfs.Base.{
  text_eq_iff, text_eq, ◌==◌, leb, ℕ, ◌+◌, ◌≤◌, ◌≡◌, refl, sym, ap, ◌∙◌, inl, inr, Bool, true,
  false, ◌&&◌, Option, none, some, List, [], ◌∷◌, Text, All, if◌then◌else◌, arith,
}
use ai_vfs.Models.{VersionMeta}
use ai_vfs.Errors.{Error, Result, Result-cases, ok, err}
use ai_vfs.Exec.{continue, pure, gets, lift, guard, ◌>>=◌, ◌>>◌}
use ai_vfs.Store.Tables.{Meta, Sql}
use ai_vfs.Store.Files.{current_number, find_file, number_of}
use ai_vfs.Store.Versions.{put_version, is_version_of}
use ai_vfs.Store.History.{IsHistory, IsNumbered, Put, put_version-Put, put_version-IsHistory}
use ai_vfs.World.{
  World, Stores, Io, Setup, operation, interleave, commit, blob_put, draw_id, read_clock,
}

-- A change of the metadata that keeps the numbers of every path gapless and takes none back.
abbrev pub Advance : Meta → Meta → Type 0
Advance m m' =
    IsHistory m'
    × ((ns path : Text) → current_number ns path m.files ≤ current_number ns path m'.files)

-- A task that takes such steps where the numbers are gapless.
abbrev pub IsFriendly : (Stores → Stores) → Type 0
IsFriendly f = (s : Stores) → IsHistory s.meta → Advance s.meta (f s).meta

-- A world that the operations start from and leave.
pub record IsGood (w : World) : Type 0 where
  pub history : IsHistory w.stores.meta
  pub friendly : All IsFriendly w.others

pub record Step (w w' : World) : Type 0 where
  pub good : IsGood w'
  pub grows :
      (ns path : Text)
      → current_number ns path w.stores.meta.files ≤ current_number ns path w'.stores.meta.files

pub Step-refl : (w : World) → IsGood w → Step w w
Step-refl w g = record { good = g; grows = λ ns path. omega arith }

pub Step-trans : (w w' w'' : World) → Step w w' → Step w' w'' → Step w w''
Step-trans w w' w'' s t = record {
  good = t.good;
  grows = λ ns path. omega (arith, s.grows ns path, t.grows ns path);
}

-- Code all of whose runs are such steps.
pub record IsSafe {A : Type 0} (m : Io A) : Type 0 where
  pub step : (w : World) → IsGood w → Step w (m w).1

abbrev world : Stores → ℕ → ℕ → List (Stores → Stores) → World
world s ids ticks others = record { stores = s; ids = ids; ticks = ticks; others = others }

turn :
    (s : Stores) (ids ticks : ℕ) (others : List (Stores → Stores))
    → IsHistory s.meta
    → All IsFriendly others
    → Step (world s ids ticks others) (interleave (world s ids ticks others))
unfolding interleave
turn s ids ticks [] h a = Step-refl (world s ids ticks []) (record { history = h; friendly = a })
turn s ids ticks (f ∷ rest) h (friendly, a) = record {
  good = record { history = (friendly s h).0; friendly = a };
  grows = (friendly s h).1;
}

pub interleave-Step : (w : World) → IsGood w → Step w (interleave w)
interleave-Step w g = turn w.stores w.ids w.ticks w.others g.history g.friendly

-- The continuation may use what the world that it starts from has reached.
pub bind-Step :
    {A B : Type 0} (m : Io A) (f : A → Io B) (w : World)
    → Step w (m w).1
    → ((a : A) → (m w).0 ≡ ok a → Step w (m w).1 → Step (m w).1 (f a (m w).1).1)
    → Step w ((m >>= f) w).1
bind-Step m f w s next = elim (Result-cases (m w).0) [
  | inl (a, e) ↦ Step-trans w (m w).1 _ s (rw e (next a e s))
  | inr (x, e) ↦ rw e s
]

pub bind-IsSafe :
    {A B : Type 0} (m : Io A) (f : A → Io B)
    → IsSafe m
    → ((a : A) → IsSafe (f a))
    → IsSafe (m >>= f)
bind-IsSafe m f safe next = record {
  step = λ w g. bind-Step m f w (safe.step w g) (λ a e s. (next a).step (m w).1 s.good);
}

-- A transaction that commits only such changes.
pub operation-Step :
    {A : Type 0} (sql : Sql A) (w : World)
    → IsGood w
    → ((w' : World)
        → Step w w'
        → (a : A) (m' : Meta) → sql w'.stores.meta ≡ (ok a, m')
        → Advance w'.stores.meta m')
    → Step w (operation sql w).1
unfolding operation
operation-Step sql w g advance =
    let w' = interleave w in
    let s = interleave-Step w g in
    elim (Result-cases (sql w'.stores.meta).0) [
      | inl (a, e) ↦
          let (h, n) =
            advance w' s a (sql w'.stores.meta).1 (ap (λ r. (r, (sql w'.stores.meta).1)) e) in
          rw e (
            Step-trans w w' _ s
              (record { good = record { history = h; friendly = s.good.friendly }; grows = n }))
      | inr (x, e) ↦ rw e s
    ]

-- A transaction that only reads.
pub gets-IsSafe : {A : Type 0} (f : Meta → A) → IsSafe (operation (gets f))
unfolding operation
gets-IsSafe f = record { step = interleave-Step }

pub lift-IsSafe : {A : Type 0} (r : Result A) → IsSafe {A = A} (lift r)
lift-IsSafe r = record { step = Step-refl }

pub guard-IsSafe : (t : Bool) (e : Error) → IsSafe (guard t e)
guard-IsSafe true e = record { step = Step-refl }
guard-IsSafe false e = record { step = Step-refl }

pub put_version-Advance :
    (v : VersionMeta) (expected : Option ℕ) (m m' : Meta)
    → IsHistory m
    → IsNumbered v m
    → put_version v expected m ≡ (ok tt, m')
    → Advance m m'
put_version-Advance v expected m m' h n e =
    let (h', next, stored, current) = put_version-IsHistory v m h n expected m' e in
    let p = put_version-Put v m expected m' e in
    (
      h',
      λ ns path. rw (p.files ns path) (
          unfold is_version_of in
          ground (arith, next, text_eq_iff v.namespace_id ns, text_eq_iff v.file_path path)),
    )
