-- ===== src/Prelude/Strip.antt =====
-- `str.strip()` over code points.
use hft_rtl.Prelude.{ℕ, Bool, true, false, ◌||◌, ◌&&◌, [], ◌∷◌, leb, nat_eq, Text}

-- `str.isspace` of a code point.
abbrev pub is_blank : ℕ → Bool
is_blank c =
    (leb 9 c && leb c 13)
    || (leb 28 c && leb c 32)
    || nat_eq c 133
    || nat_eq c 160
    || nat_eq c 5760
    || (leb 8192 c && leb c 8202)
    || nat_eq c 8232
    || nat_eq c 8233
    || nat_eq c 8239
    || nat_eq c 8287
    || nat_eq c 12288

unfoldable pub lstrip : Text → Text
lstrip [] = []
lstrip (c ∷ cs) = elim (is_blank c) [ true ↦ lstrip cs | false ↦ c ∷ cs ]

abbrev keep : ℕ → Bool → Text → Text
keep c true [] = []
keep c _ rest = c ∷ rest

unfoldable pub rstrip : Text → Text
rstrip [] = []
rstrip (c ∷ cs) = keep c (is_blank c) (rstrip cs)

unfoldable pub strip : Text → Text
strip t = rstrip (lstrip t)
