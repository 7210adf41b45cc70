-- ===== src/Store/TextIndex/Kept.antt =====
-- What `index_text`, `delete_text_artifacts` and `_backfill_word_index` of sqlite_metadata.py keep of
-- the text index.
use ai_vfs.Base.{
  ℕ, ◌≡◌, refl, ap, Bool, true, false, not, ◌&&◌, ◌||◌, ◌⊎◌, inl, inr, List, [], ◌∷◌, ◌++◌, Text,
  text_eq, select, map, any, if◌then◌else◌, Bool-cases,
}
use mathlib.Core.List.{append-nil}
use ai_vfs.Store.Tables.{Meta, TextArtifact, FtsRow}
use ai_vfs.Store.Versions.{mem_text}
use ai_vfs.Store.TextIndex.{
  NativeTextSearch, as_fts, text_row, index_text, delete_text_artifacts, has_row, backfilled,
  backfill_word_index,
}
use ai_vfs.Store.TextIndex.Mirrored.{
  Identity, same, artifact_identity, row_identity, texts, texts-select, texts-drop, texts-++,
  texts-none, texts-some, artifact_texts, row_texts, AtMostOne, nothing, just_one,
  texts-replace_fts, texts-upsert_artifact,
}

-- Under each identity, one text at most, and the same in the three tables.
pub record IsMirrored (m : Meta) : Type 0 where
  pub one : (q : Identity) → AtMostOne (artifact_texts q m.search_text_artifacts)
  pub trigrams :
      (q : Identity) → row_texts q m.search_fts ≡ artifact_texts q m.search_text_artifacts
  pub words :
      (q : Identity) → row_texts q m.search_fts_words ≡ artifact_texts q m.search_text_artifacts

AtMostOne-if :
    (b : Bool) (t : Text) (ts : List Text) → AtMostOne ts → AtMostOne (if b then t ∷ [] else ts)
AtMostOne-if true t ts one = just_one
AtMostOne-if false t ts one = one

index_text-IsMirrored :
    (nts : NativeTextSearch) (content_hash params_hash text : Text) (now : ℕ) (m : Meta)
    → IsMirrored m
    → IsMirrored (index_text nts content_hash params_hash text now m).1
unfolding index_text
index_text-IsMirrored nts content_hash params_hash text now m k =
    let a = text_row nts content_hash params_hash text now in
    let indexed = λ (q : Identity). texts-upsert_artifact q a m.search_text_artifacts (k.one q) in
    record {
      one = λ q. rw (indexed q) (AtMostOne-if (same q (artifact_identity a)) text _ (k.one q));
      trigrams =
          λ q. rw (texts-replace_fts q (as_fts a) m.search_fts, indexed q, k.trigrams q) refl;
      words =
          λ q. rw (texts-replace_fts q (as_fts a) m.search_fts_words, indexed q, k.words q) refl;
    }

texts-select_both :
    (q : Identity) (g : Identity → Bool) (bs : List TextArtifact) (rs : List FtsRow)
    → row_texts q rs ≡ artifact_texts q bs
    → row_texts q (select (λ r. g (row_identity r)) rs)
      ≡ artifact_texts q (select (λ a. g (artifact_identity a)) bs)
texts-select_both q g bs rs h = elim (Bool-cases (g q)) [
  | inl e ↦
      rw
        (
          texts-select row_identity (λ r. r.raw_text) q g rs e,
          texts-select artifact_identity (λ a. a.raw_text) q g bs e,
        )
        h
  | inr e ↦
      rw
        (
          texts-drop row_identity (λ r. r.raw_text) q g rs e,
          texts-drop artifact_identity (λ a. a.raw_text) q g bs e,
        )
        refl
]

AtMostOne-select :
    (q : Identity) (g : Identity → Bool) (bs : List TextArtifact)
    → AtMostOne (artifact_texts q bs)
    → AtMostOne (artifact_texts q (select (λ a. g (artifact_identity a)) bs))
AtMostOne-select q g bs one = elim (Bool-cases (g q)) [
  | inl e ↦ rw (texts-select artifact_identity (λ a. a.raw_text) q g bs e) one
  | inr e ↦ rw (texts-drop artifact_identity (λ a. a.raw_text) q g bs e) nothing
]

delete_text_artifacts-IsMirrored :
    (nts : NativeTextSearch) (content_hashes retired : List Text) (m : Meta)
    → IsMirrored m
    → IsMirrored (delete_text_artifacts nts content_hashes retired m).1
unfolding delete_text_artifacts
delete_text_artifacts-IsMirrored nts content_hashes retired m k =
    let g : Identity → Bool = λ i.
      not (
        text_eq i.0 nts.provider_key
        && (mem_text i.1.1 content_hashes || mem_text i.1.0 retired)) in
    record {
      one = λ q. AtMostOne-select q g m.search_text_artifacts (k.one q);
      trigrams = λ q. texts-select_both q g m.search_text_artifacts m.search_fts (k.trigrams q);
      words = λ q. texts-select_both q g m.search_text_artifacts m.search_fts_words (k.words q);
    }

-- Whatever texts are indexed and swept, under each identity there is at most one text, and the two
-- FTS5 tables hold just the texts of the main table: a mirrored index stays mirrored.
pub text_index-IsMirrored :
    (nts : NativeTextSearch) (content_hash params_hash text : Text) (now : ℕ)
    → (content_hashes retired_params_hashes : List Text) (m : Meta) → IsMirrored m
    → IsMirrored (index_text nts content_hash params_hash text now m).1
      × IsMirrored (delete_text_artifacts nts content_hashes retired_params_hashes m).1
text_index-IsMirrored nts content_hash params_hash text now content_hashes retired m k = (
  index_text-IsMirrored nts content_hash params_hash text now m k,
  delete_text_artifacts-IsMirrored nts content_hashes retired m k,
)

texts-as_fts :
    (q : Identity) (bs : List TextArtifact) → row_texts q (map as_fts bs) ≡ artifact_texts q bs
unfolding texts
texts-as_fts q [] = refl
texts-as_fts q (b ∷ bs) = elim (Bool-cases (same q (artifact_identity b))) [
  | inl e ↦ rw e (ap (λ u. b.raw_text ∷ u) (texts-as_fts q bs))
  | inr e ↦ rw e (texts-as_fts q bs)
]

-- An interrupted rebuild: the word index holds the texts of an identity, or none of them.
abbrev pub IsInterrupted : Meta → Type 0
IsInterrupted m =
    (q : Identity)
    → (row_texts q m.search_fts_words ≡ [])
      ⊎ (row_texts q m.search_fts_words ≡ artifact_texts q m.search_text_artifacts)

-- After the backfill the word index holds, under each identity of the provider, just the texts of
-- the main table, none of them twice, wherever an earlier rebuild was interrupted.
pub backfill_word_index-completes :
    (nts : NativeTextSearch) (m : Meta) (q : Identity)
    → IsInterrupted m
    → text_eq q.0 nts.provider_key ≡ true
    → row_texts q (backfill_word_index nts m).1.search_fts_words
      ≡ artifact_texts q m.search_text_artifacts
unfolding backfill_word_index backfilled has_row
backfill_word_index-completes nts m q partly mine =
    let rs = m.search_fts_words in
    let missing : Identity → Bool =
      λ i. text_eq i.0 nts.provider_key && not (any (λ r. same i (row_identity r)) rs) in
    let added = select (λ a. missing (artifact_identity a)) m.search_text_artifacts in
    let present = any (λ r. same q (row_identity r)) rs in
    let parts : row_texts q (map as_fts added ++ rs) ≡ artifact_texts q added ++ row_texts q rs =
      rw (texts-++ row_identity (λ r. r.raw_text) q (map as_fts added) rs, texts-as_fts q added)
        refl in
    rw parts (elim (Bool-cases present) [
      | inl e ↦
          rw
            (texts-drop artifact_identity (λ a. a.raw_text) q missing m.search_text_artifacts
              (rw (mine, e) refl))
            (elim (partly q) [
              | inl gone ↦ cc (rw (texts-some row_identity (λ r. r.raw_text) q rs gone) at e)
              | inr there ↦ there
            ])
      | inr e ↦
          rw
            (
              texts-select artifact_identity (λ a. a.raw_text) q missing m.search_text_artifacts
                  (rw (mine, e) refl),
              texts-none row_identity (λ r. r.raw_text) q rs e,
            )
            (append-nil (artifact_texts q m.search_text_artifacts))
    ])
