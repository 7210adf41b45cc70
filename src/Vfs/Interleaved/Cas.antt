-- ===== src/Vfs/Interleaved/Cas.antt =====
-- A compare-and-swap write beside other tasks.
use ai_vfs.Base.{
  ℕ, ◌+◌, ◌≤◌, ◌≡◌, refl, subst, ap, sym, ◌∙◌, inl, inr, true, false, Option, none, some, [], ◌∷◌,
  Text, codes, All, Bool-cases, arith,
}
use ai_vfs.Models.{FileMeta, VersionMeta, artifact_dict}
use ai_vfs.Errors.{Result, Result-cases, ok, err, is_collision}
use ai_vfs.Exec.{continue, pure, lift, ◌>>=◌, ◌>>◌}
use ai_vfs.Paths.Canonical.{require_canonical}
use ai_vfs.Store.Tables.{Meta}
use ai_vfs.Store.Files.{find_file, get_file, current_number}
use ai_vfs.Store.Versions.{has_version, put_version}
use ai_vfs.Store.TextIndex.{NativeTextSearch, index_text, ready_artifact, unsupported_artifact}
use ai_vfs.Store.History.{IsHistory, IsNumbered, put_cas-ok, cas_files-hit, put_version-IsHistory}
use ai_vfs.World.{World, Io, Setup, operation, interleave, blob_put, draw_id, read_clock}
use ai_vfs.Vfs.Audit.{audit_write}
use ai_vfs.Vfs.Access.{check_perm}
use ai_vfs.Vfs.Retry.{retry, or_retry}
use ai_vfs.Vfs.Write.{
  with_manifest, put_decoded, put_indexed, next_version_number, write_attempt, write_again, write,
}
use ai_vfs.Vfs.Interleaved.{IsFriendly, IsGood, IsSafe, lift-IsSafe, interleave-Step}
use ai_vfs.Vfs.Interleaved.Writes.{write_attempt-Step, write-IsSafe}
use ai_vfs.Vfs.Interleaved.Steps.{
  check_perm-IsSafe, blob_put-IsSafe, get_file-IsSafe, get_file-seen, Seen, audit_event-IsSafe,
}

-- The version is the one behind the expected number, which the file was not past before and is past
-- afterwards.
pub record Swaps (ns path : Text) (e : ℕ) (w : World) (v : VersionMeta) (w' : World) : Type 0 where
  pub number : v.version_number ≡ e + 1
  pub before : current_number ns path w.stores.meta.files ≤ e
  pub after : e + 1 ≤ current_number ns path w'.stores.meta.files

-- What code returns, if it returns, has been swapped in.
pub record Yields (ns path : Text) (e : ℕ) (m : Io VersionMeta) : Type 0 where
  pub result :
      (w : World) → IsGood w → (a : VersionMeta) → (m w).0 ≡ ok a → Swaps ns path e w a (m w).1

bind_ok :
    {A B : Type 0} (m : Io A) (f : A → Io B) (w : World) (b : B)
    → ((m >>= f) w).0 ≡ ok b
    → (a : A) × ((m w).0 ≡ ok a) × ((f a (m w).1).0 ≡ ok b) × ((m >>= f) w ≡ f a (m w).1)
bind_ok m f w b e = elim (Result-cases (m w).0) [
  | inl (a, q) ↦ (a, q, rw q at e, rw q refl)
  | inr (x, q) ↦ cc (rw q at e)
]

bind-Yields :
    {A : Type 0} (ns path : Text) (e : ℕ) (m : Io A) (f : A → Io VersionMeta)
    → IsSafe m
    → ((a : A) → Yields ns path e (f a))
    → Yields ns path e (m >>= f)
bind-Yields ns path n m f safe next = record {
  result = λ w g b e.
      let (a, q, r, runs) = bind_ok m f w b e in
      let s = safe.step w g in
      let t = (next a).result (m w).1 s.good b r in
      rw runs (record {
        number = t.number;
        before = omega (arith, s.grows ns path, t.before);
        after = t.after;
      });
}

-- The same of a transaction.
record Swapped (ns path : Text) (e : ℕ) (m : Meta) (v : VersionMeta) (m' : Meta) : Type 0 where
  number : v.version_number ≡ e + 1
  was : current_number ns path m.files ≡ e
  is_now : current_number ns path m'.files ≡ e + 1

-- A compare-and-swap put that succeeds takes the number behind the expected one.
put_version-Swapped :
    (v : VersionMeta) (e : ℕ) (m m' : Meta)
    → IsHistory m
    → IsNumbered v m
    → put_version v (some e) m ≡ (ok tt, m')
    → Swapped v.namespace_id v.file_path e m v m'
unfolding put_version
put_version-Swapped v e m m' h n q =
    let (c, hit, s) = put_cas-ok v e m m' q in
    let (h', next, stored, current) = put_version-IsHistory v m h n (some e) m' q in
    let was = cas_files-hit v e m.files hit in
    record {
      number = omega (arith, next, was);
      was = was;
      is_now = omega (arith, next, was, current);
    }

put_returns :
    (r : Result (Unit {0}) × Meta) (v a : VersionMeta)
    → (continue r.0 (λ u. pure v) r.1).0 ≡ ok a
    → (r ≡ (ok tt, r.1)) × (v ≡ a) × ((continue r.0 (λ u. pure v) r.1).1 ≡ r.1)
put_returns (ok tt, m) v a e = (refl, cc e, refl)
put_returns (err x, m) v a e = cc e

put_then_Swapped :
    (v a : VersionMeta) (e : ℕ) (m : Meta)
    → IsHistory m
    → IsNumbered v m
    → (continue (put_version v (some e) m).0 (λ u. pure v) (put_version v (some e) m).1).0 ≡ ok a
    → Swapped v.namespace_id v.file_path e m a
        (continue (put_version v (some e) m).0 (λ u. pure v) (put_version v (some e) m).1).1
put_then_Swapped v a e m h n q =
    let (p, s, same) = put_returns (put_version v (some e) m) v a q in
    let t = put_version-Swapped v e m _ h n p in
    rw same (record {
      number = subst (λ x. x.version_number ≡ e + 1) s t.number;
      was = t.was;
      is_now = t.is_now;
    })

put_decoded-Swapped :
    (nts : NativeTextSearch) (v a : VersionMeta) (now e : ℕ) (decoded : Option Text) (m : Meta)
    → IsHistory m
    → IsNumbered v m
    → (put_decoded nts v now (some e) decoded m).0 ≡ ok a
    → Swapped v.namespace_id v.file_path e m a (put_decoded nts v now (some e) decoded m).1
unfolding put_decoded index_text
put_decoded-Swapped nts v a now e none m h n q =
    put_then_Swapped
      (with_manifest v
        ((nts.provider_key, artifact_dict (unsupported_artifact nts v.content_hash now)) ∷ []))
      a e m h n q
put_decoded-Swapped nts v a now e (some t) m h n q =
    let s =
      put_then_Swapped
        (with_manifest v (
          (nts.provider_key, artifact_dict (ready_artifact nts v.content_hash nts.params_hash now))
          ∷ []))
        a e (index_text nts v.content_hash nts.params_hash t now m).1 h n q in
    record { number = s.number; was = s.was; is_now = s.is_now }

put_indexed-Swapped :
    (S : Setup) (nts : Option NativeTextSearch) (v a : VersionMeta) (content : Text) (now e : ℕ)
    (m : Meta)
    → IsHistory m
    → IsNumbered v m
    → (put_indexed S nts v content now (some e) m).0 ≡ ok a
    → Swapped v.namespace_id v.file_path e m a (put_indexed S nts v content now (some e) m).1
unfolding put_indexed
put_indexed-Swapped S none v a content now e m h n q = put_then_Swapped v a e m h n q
put_indexed-Swapped S (some nts) v a content now e m h n q =
    put_decoded-Swapped nts v a now e (S.decode content) m h n q

-- An operation returns what its transaction returned, and leaves what that left.
operation_ok :
    {A : Type 0} (sql : Meta → Result A × Meta) (w : World) (a : A)
    → (operation sql w).0 ≡ ok a
    → ((sql (interleave w).stores.meta).0 ≡ ok a)
      × ((operation sql w).1.stores.meta ≡ (sql (interleave w).stores.meta).1)
unfolding operation
operation_ok sql w a e = elim (Result-cases (sql (interleave w).stores.meta).0) [
  | inl (b, q) ↦ (q ∙ (rw q at e), rw q refl)
  | inr (x, q) ↦ cc (rw q at e)
]

-- A compare-and-swap write makes one attempt.
one_attempt : {A : Type 0} (first again : Io A) (w : World) → retry 4 true first again w ≡ first w
unfolding retry
one_attempt first again w = stands (first w) (retry 3 true again again)
  where
    stands : {A : Type 0} (r : Result A × World) (k : Io A) → or_retry true r k ≡ r
    stands (ok a, w') k = unfold or_retry in refl
    stands (err x, w') k =
        unfold or_retry in
        elim (Bool-cases (is_collision x)) [ inl c ↦ rw c refl | inr c ↦ rw c refl ]

module _ (S : Setup) (ns path content principal : Text) (expected : ℕ) where
  attempt-Swaps :
      (f : Option FileMeta) (w : World) (a : VersionMeta)
      → IsGood w
      → Seen ns path f w
      → (write_attempt S ns path content principal (some expected) f w).0 ≡ ok a
      → Swaps ns path expected w a (write_attempt S ns path content principal (some expected) f w).1
  unfolding write_attempt next_version_number draw_id read_clock
  attempt-Swaps f w a g seen e =
      let w' : World = record w { ticks = w.ticks + 1; ids = w.ids + 1 } in
      let g' : IsGood w' = record { history = g.history; friendly = g.friendly } in
      let s = interleave-Step w' g' in
      let (returned, left) = operation_ok _ w' a e in
      let t =
        put_indexed-Swapped S S.native_text_search _ a content (S.clock w.ticks) expected
          (interleave w').stores.meta s.good.history
          (omega arith, omega (arith, seen, s.grows ns path)) returned in
      record {
        number = t.number;
        before = omega (arith, s.grows ns path, t.was);
        after = rw left (omega (arith, t.is_now));
      }

  -- The audit event comes behind the attempt.
  loop-Swaps :
      (f : Option FileMeta) (w : World) (a : VersionMeta)
      → IsGood w
      → Seen ns path f w
      → let m =
          retry 4 true
            (write_attempt S ns path content principal (some expected) f)
            (write_again S ns path content principal (some expected))
          >>= λ v. audit_write S ns principal path v.id >> pure v in
        (m w).0 ≡ ok a → Swaps ns path expected w a (m w).1
  unfolding audit_write
  loop-Swaps f w a g seen e =
      let first = write_attempt S ns path content principal (some expected) f in
      let again = write_again S ns path content principal (some expected) in
      let event = λ (v : VersionMeta). audit_write S ns principal path v.id in
      let (v, q, r, runs) = bind_ok (retry 4 true first again) (λ v. event v >> pure v) w a e in
      let one : retry 4 true first again w ≡ first w = one_attempt first again w in
      let t = attempt-Swaps f w v g seen (ap (λ x. x.0) (sym one) ∙ q) in
      let good = (write_attempt-Step S ns path content principal (some expected) f w g seen).good in
      let (u, p, same, left) = bind_ok (event v) (λ u. pure v) (first w).1 a (rw one at r) in
      let s =
        (audit_event-IsSafe S ns principal (codes "write") (some path) (some v.id) []).step
          (first w).1 good in
      let here : v ≡ a = cc same in
      rw (runs, one, left)
        (record {
          number = subst (λ x. x.version_number ≡ expected + 1) here t.number;
          before = t.before;
          after = omega (arith, t.after, s.grows ns path);
        })

  file-Yields : Yields ns path expected (
      operation (get_file ns path) >>= λ f.
      retry 4 true
        (write_attempt S ns path content principal (some expected) f)
        (write_again S ns path content principal (some expected))
      >>= λ v. audit_write S ns principal path v.id >> pure v)
  unfolding current_number
  file-Yields = record {
    result = λ w g a e.
        let (f, q, r, runs) = bind_ok (operation (get_file ns path)) _ w a e in
        let seen : find_file ns path (operation (get_file ns path) w).1.stores.meta.files ≡ f =
          cc (get_file-seen ns path w, q) in
        let s = (get_file-IsSafe ns path).step w g in
        let t = loop-Swaps f _ a s.good (rw seen (omega arith)) r in
        rw runs (record {
          number = t.number;
          before = omega (arith, s.grows ns path, t.before);
          after = t.after;
        });
  }

  write-Yields : Yields ns path expected (write S ns path content principal (some expected))
  unfolding write
  write-Yields =
      bind-Yields ns path expected (lift (require_canonical path)) _
        (lift-IsSafe (require_canonical path))
        (λ u.
          bind-Yields ns path expected (check_perm principal ns path (codes "write")) _
            (check_perm-IsSafe principal ns path (codes "write"))
            (λ u.
              bind-Yields ns path expected (blob_put (S.blake3 content) content) _
                (blob_put-IsSafe (S.blake3 content) content) (λ u. file-Yields)))

-- Whatever the other tasks do between the steps of a compare-and-swap write, if it returns, the
-- version that it created has the number behind the expected one, no version of the path had that
-- number when the write began, and one has it when it returns. The numbers of every path are
-- gapless, and each step of the other tasks keeps them so and takes none back.
pub write-expected :
    (S : Setup) (ns path content principal : Text) (expected : ℕ) (w w' : World) (v : VersionMeta)
    → IsHistory w.stores.meta
    → All IsFriendly w.others
    → write S ns path content principal (some expected) w ≡ (ok v, w')
    → (v.version_number ≡ expected + 1)
      × (has_version ns path v.version_number w.stores.meta.versions ≡ false)
      × (has_version ns path v.version_number w'.stores.meta.versions ≡ true)
write-expected S ns path content principal expected w w' v history friendly e =
    let g : IsGood w = record { history = history; friendly = friendly } in
    let m = write S ns path content principal (some expected) in
    let t = (write-Yields S ns path content principal expected).result w g v (ap (λ r. r.0) e) in
    let s = (write-IsSafe S ns path content principal (some expected)).step w g in
    let left : (m w).1 ≡ w' = ap (λ r. r.1) e in
    let past : expected + 1 ≤ current_number ns path w'.stores.meta.files =
      subst (λ x. expected + 1 ≤ current_number ns path x.stores.meta.files) left t.after in
    let history' : IsHistory w'.stores.meta =
      subst (λ x. IsHistory x.stores.meta) left s.good.history in
    (
      t.number,
      rw (history, t.number) (ground (arith, t.before)),
      rw (history', t.number) (ground (arith, past)),
    )
