-- ===== src/Tests/Querying.antt =====
-- The queries of the SQLite text index at concrete inputs.
use ai_vfs.Base.{◌≡◌, refl, none, some, [], ◌∷◌, codes}
use ai_vfs.Search.{match_any}
use ai_vfs.Search.Sqlite.{fts_query, escaped_quotes, split_terms, fts5_literal_from_pattern}
use ai_vfs.Search.Sqlite.Quoting.{strings_of, strings_of-fts_query}

strings_of-fts_query_example :
    strings_of (fts_query match_any (codes "a\"b" ∷ codes "OR" ∷ []))
    ≡ codes "a\"b" ∷ codes "OR" ∷ []
strings_of-fts_query_example = strings_of-fts_query match_any (codes "a\"b" ∷ codes "OR" ∷ [])

quoted : fts_query match_any (codes "a\"b" ∷ codes "c" ∷ []) ≡ codes "\"a\"\"b\" OR \"c\""
unfolding fts_query escaped_quotes
quoted = refl

terms : split_terms (codes "  s3  c++ ") ≡ codes "s3" ∷ codes "c++" ∷ []
unfolding split_terms
terms = refl

longest_run : fts5_literal_from_pattern (codes "[0-9]+foo\\.bar") ≡ some (codes "foo.bar")
unfolding fts5_literal_from_pattern
longest_run = refl

alternation : fts5_literal_from_pattern (codes "foo|barbaz") ≡ none
unfolding fts5_literal_from_pattern
alternation = refl

-- The count of a repetition is taken for a literal, though no match needs to contain it.
repetition_count : fts5_literal_from_pattern (codes "a{100}") ≡ some (codes "100")
unfolding fts5_literal_from_pattern
repetition_count = refl

-- A character that may be absent is part of the literal.
optional_character : fts5_literal_from_pattern (codes "food{0,1}") ≡ some (codes "food")
unfolding fts5_literal_from_pattern
optional_character = refl
