-- ===== src/Tests/Indexing.antt =====
-- The text index of SQLite at concrete states.
use ai_vfs.Base.{◌≡◌, refl, inl, [], ◌∷◌, codes, text_eq}
use ai_vfs.Store.Tables.{Meta, empty_meta}
use ai_vfs.Store.TextIndex.{
  NativeTextSearch, index_text, delete_text_artifacts, backfill_word_index,
}
use ai_vfs.Store.TextIndex.Mirrored.{Identity, nothing, texts, artifact_texts, row_texts}
use ai_vfs.Store.TextIndex.Kept.{IsMirrored, text_index-IsMirrored, backfill_word_index-completes}

abbrev index : NativeTextSearch
index = record { provider_key = codes "vfs.sqlite_fts5"; params_hash = codes "v1" }

empty_meta-IsMirrored : IsMirrored empty_meta
unfolding texts
empty_meta-IsMirrored = record { one = λ q. nothing; trigrams = λ q. refl; words = λ q. refl }

-- One text, indexed.
abbrev one_text : Meta
one_text = (index_text index (codes "h1") (codes "v1") (codes "hello") 5 empty_meta).1

one_text-IsMirrored : IsMirrored one_text
one_text-IsMirrored =
    (text_index-IsMirrored index (codes "h1") (codes "v1") (codes "hello") 5 [] [] empty_meta
      empty_meta-IsMirrored).0

-- The same content again, and a sweep of it.
text_index-IsMirrored_example :
    IsMirrored (index_text index (codes "h1") (codes "v1") (codes "world") 6 one_text).1
    × IsMirrored (delete_text_artifacts index (codes "h1" ∷ []) [] one_text).1
text_index-IsMirrored_example =
    text_index-IsMirrored index (codes "h1") (codes "v1") (codes "world") 6 (codes "h1" ∷ []) []
      one_text one_text-IsMirrored

abbrev first_identity : Identity
first_identity = (codes "vfs.sqlite_fts5", (codes "v1", codes "h1"))

-- Its word index has been lost.
abbrev interrupted : Meta
interrupted = record one_text { search_fts_words = [] }

backfill_word_index-completes_example :
    row_texts first_identity (backfill_word_index index interrupted).1.search_fts_words
    ≡ artifact_texts first_identity interrupted.search_text_artifacts
unfolding texts text_eq
backfill_word_index-completes_example =
    backfill_word_index-completes index interrupted first_identity (λ q. inl refl) refl

found_again :
    row_texts first_identity (backfill_word_index index interrupted).1.search_fts_words
    ≡ codes "hello" ∷ []
unfolding index_text backfill_word_index texts
found_again = refl
