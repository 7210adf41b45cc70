-- ===== src/Search/Lines.antt =====
-- Python's `str.splitlines`, `str.split()` and `str.strip()`, which the searches call.
use ai_vfs.Base.{
  ℕ, suc, Bool, true, false, ◌&&◌, ◌||◌, List, [], ◌∷◌, Text, ◌==◌, leb, if◌then◌else◌, rev_onto,
}

-- `c.isspace()`
unfoldable pub is_space : ℕ → Bool
is_space c =
    (leb 9 c && leb c 13)
    || ((leb 28 c && leb c 32)
        || (c == 133
            || (c == 160
                || (c == 5760
                    || ((leb 8192 c && leb c 8202)
                        || (c == 8232
                            || (c == 8233 || (c == 8239 || (c == 8287 || c == 12288)))))))))

-- The line boundaries of `splitlines`; `\r\n` is one boundary.
unfoldable pub is_break : ℕ → Bool
is_break c =
    (leb 10 c && leb c 13) || ((leb 28 c && leb c 30) || (c == 133 || (c == 8232 || c == 8233)))

abbrev pub onto_line : ℕ → List Text → List Text
onto_line a [] = (a ∷ []) ∷ []
onto_line a (t ∷ ts) = (a ∷ t) ∷ ts

-- A carriage return in front of a line feed belongs to the same boundary.
abbrev pub is_crlf : ℕ → Text → Bool
is_crlf c [] = false
is_crlf c (d ∷ s) = c == 13 && d == 10

-- `s.splitlines()`: no empty line behind a final boundary.
unfoldable pub splitlines : Text → List Text
unfolding is_break
splitlines [] = []
splitlines (c ∷ s) =
    let rest = splitlines s in
    if is_crlf c s then rest else if is_break c then [] ∷ rest else onto_line c rest

-- `len(s.split())`, where the flag says that the character in front belongs to a term.
unfoldable pub term_count : Bool → Text → ℕ
unfolding is_space
term_count inside [] = 0
term_count inside (c ∷ s) =
    let after_space = term_count false s in
    let after_char = term_count true s in
    if is_space c then after_space else if inside then after_char else suc after_char

unfoldable pub lstrip : Text → Text
unfolding is_space
lstrip [] = []
lstrip (c ∷ s) = let rest = lstrip s in if is_space c then rest else c ∷ s

-- `s.strip()`
unfoldable pub strip : Text → Text
unfolding lstrip rev_onto
strip s = rev_onto (lstrip (rev_onto (lstrip s) [])) []
