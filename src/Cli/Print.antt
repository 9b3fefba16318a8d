-- ===== src/Cli/Print.antt =====
-- The texts that app/cli.py prints: the table, the window, and Python's number and text formats.
use quotaguard.Prelude.{
  Bool, List, Text, [], codes, decimal, if◌then◌else◌, join, leb, length, ltb, map, max, suc,
  text_leb, zero, ℕ, ◌%◌, ◌&&◌, ◌++◌, ◌-◌, ◌/◌, ◌==◌, ◌||◌, ◌∷◌,
}
use quotaguard.Models.{RedisDownPolicy, fail_closed, fail_open}

-- The characters that `str.strip` takes off.
unfoldable pub is_space : ℕ → Bool
is_space c =
    leb 9 c && leb c 13
    || leb 28 c && leb c 32
    || c == 133
    || c == 160
    || c == 5760
    || leb 8192 c && leb c 8202
    || c == 8232
    || c == 8233
    || c == 8239
    || c == 8287
    || c == 12288

abbrev pub onto_right : ℕ → Text → Text
onto_right c [] = if is_space c then [] else c ∷ []
onto_right c (d ∷ s) = c ∷ d ∷ s

-- `.rstrip()`
unfoldable pub rstrip : Text → Text
rstrip [] = []
rstrip (c ∷ s) = onto_right c (rstrip s)

unfoldable pub lstrip : Text → Text
lstrip [] = []
lstrip (c ∷ s) = if is_space c then lstrip s else c ∷ s

unfoldable pub strip : Text → Text
strip s = rstrip (lstrip s)

unfoldable pub spaces : ℕ → Text
spaces zero = []
spaces (suc n) = b' ' ∷ spaces n

-- `.ljust(width)`
unfoldable pub ljust : Text → ℕ → Text
ljust s width = s ++ spaces (width - length s)

unfoldable pub widest : List Text → List ℕ → List ℕ
widest (cell ∷ cells) (w ∷ ws) = max (length cell) w ∷ widest cells ws
widest _ ws = ws

-- The width of a column: the header's, or that of the longest cell.
unfoldable pub widths : List Text → List (List Text) → List ℕ
widths headers [] = map length headers
widths headers (row ∷ rows) = widest row (widths headers rows)

unfoldable pub cells_of : List Text → List ℕ → List Text
cells_of (cell ∷ cells) (w ∷ ws) = ljust cell w ∷ cells_of cells ws
cells_of _ _ = []

unfoldable pub join_by : Text → List Text → Text
join_by sep [] = []
join_by sep (s ∷ []) = s
join_by sep (s ∷ t ∷ rest) = s ++ sep ++ join_by sep (t ∷ rest)

unfoldable pub table_line : List ℕ → List Text → Text
table_line ws row = rstrip (join_by (codes "  ") (cells_of row ws))

-- `_table`
unfoldable pub table : List Text → List (List Text) → Text
table headers rows =
    let ws = widths headers rows in join 10 (table_line ws headers ∷ map (table_line ws) rows)

-- `_window`
unfoldable pub window : ℕ → Text
window seconds =
    if seconds % 3600 == 0
    then decimal (seconds / 3600) ++ codes "h"
    else if seconds % 60 == 0
    then decimal (seconds / 60) ++ codes "m"
    else decimal seconds ++ codes "s"

-- `f"{n:,}"`: a comma before each third digit from the right
unfoldable pub commas : Text → Text
commas [] = []
commas (c ∷ s) = if length s % 3 == 0 && ltb 0 (length s) then c ∷ b',' ∷ commas s else c ∷ commas s

unfoldable pub grouped : ℕ → Text
grouped n = commas (decimal n)

unfoldable pub policy_name : RedisDownPolicy → Text
policy_name fail_open = codes "fail_open"
policy_name fail_closed = codes "fail_closed"

unfoldable pub insert_text : Text → List Text → List Text
insert_text s [] = s ∷ []
insert_text s (t ∷ ts) = if text_leb s t then s ∷ t ∷ ts else t ∷ insert_text s ts

-- `sorted`
unfoldable pub sort_texts : List Text → List Text
sort_texts [] = []
sort_texts (s ∷ ts) = insert_text s (sort_texts ts)
