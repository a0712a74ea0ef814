-- ===== src/Sse/Payload.antt =====
-- src/core/codex/src/response_sse_reader.rs: `data_payload`, on the code points of a text.
use mini_sub2api.Base.{ℕ, Bool, ◌||◌, Option, none, some, List, [], ◌∷◌, ◌++◌, ◌==◌, if◌then◌else◌}

abbrev pub line_feed : ℕ
line_feed = 10

abbrev pub carriage_return : ℕ
carriage_return = 13

-- `matches!(byte, b'\r' | b'\n')`
abbrev pub is_break : ℕ → Bool
is_break c = (c == carriage_return) || (c == line_feed)

-- Puts a character before the first of the lines.
abbrev pub prepend : ℕ → List (List ℕ) → List (List ℕ)
prepend c [] = (c ∷ []) ∷ []
prepend c (line ∷ lines) = (c ∷ line) ∷ lines

-- `text.split(['\r', '\n'])`; a line that it returns has no `\r` left for `strip_suffix`.
unfoldable pub split_lines : List ℕ → List (List ℕ)
split_lines [] = [] ∷ []
split_lines (c ∷ cs) = if is_break c then [] ∷ split_lines cs else prepend c (split_lines cs)

-- `strip_prefix`
abbrev pub strip_prefix : List ℕ → List ℕ → Option (List ℕ)
strip_prefix [] cs = some cs
strip_prefix (p ∷ ps) [] = none
strip_prefix (p ∷ ps) (c ∷ cs) = if p == c then strip_prefix ps cs else none

abbrev pub data_prefix : List ℕ
data_prefix = 100 ∷ 97 ∷ 116 ∷ 97 ∷ 58 ∷ []

abbrev pub strip_space : List ℕ → List ℕ
strip_space [] = []
strip_space (c ∷ cs) = if c == 32 then cs else c ∷ cs

-- `filter_map` over the lines.
abbrev pub data_parts : List (List ℕ) → List (List ℕ)
data_parts [] = []
data_parts (line ∷ lines) = elim (strip_prefix data_prefix line) [
  | none ↦ data_parts lines
  | some value ↦ strip_space value ∷ data_parts lines
]

abbrev pub join_lines : List ℕ → List (List ℕ) → List ℕ
join_lines first [] = first
join_lines first (part ∷ parts) = first ++ line_feed ∷ join_lines part parts

unfoldable pub data_payload : List ℕ → Option (List ℕ)
unfolding split_lines
data_payload text = elim (data_parts (split_lines text)) [
  | [] ↦ none
  | first ∷ parts ↦ some (join_lines first parts)
]
