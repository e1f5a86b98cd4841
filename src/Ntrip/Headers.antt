-- ===== src/Ntrip/Headers.antt =====
-- The header lines of a caster's reply: _HEADER_LINE and _split_header_block() of
-- src/sp_rtk_base_relay/core/ntrip/protocol.py. The loop has the buffer's length as fuel: each line takes
-- a byte at least.
pub mod Lines
use sp_rtk_base_relay.Prelude.{
  ℕ, zero, suc, ◌+◌, ◌*◌, ◌-◌, String, Bool, true, false, not, ◌&&◌, ◌||◌, Option, none, some, List,
  [], ◌∷◌, ◌++◌, map, length, leb, ltb, ◌==◌, if◌then◌else◌,
}
use sp_rtk_base_relay.Rtcm.{Bytes}
use sp_rtk_base_relay.Ntrip.Chunked.{is_white}

-- The lines of _HEADER_LINE. A match is the text matched and what follows it.
abbrev pub Match : Type 0
Match = Option (Bytes × Bytes)

abbrev pub longer : ℕ → Match → Match
longer b none = none
longer b (some (line, rest)) = some (b ∷ line, rest)

abbrev pub is_token : ℕ → Bool
is_token b =
    (b == 33)
    || (leb 35 b && leb b 39)
    || (b == 42)
    || (b == 43)
    || (b == 45)
    || (b == 46)
    || (leb 48 b && leb b 57)
    || (leb 65 b && leb b 90)
    || (leb 94 b && leb b 122)
    || (b == 124)
    || (b == 126)

unfoldable pub match_newline : Bytes → Match
match_newline [] = none
match_newline (b ∷ bytes) = if b == 10 then some (10 ∷ [], bytes) else none

unfoldable pub match_end : Bytes → Match
unfolding match_newline
match_end [] = none
match_end (b ∷ bytes) =
    if b == 13 then longer 13 (match_newline bytes) else match_newline (b ∷ bytes)

unfoldable pub match_value : Bytes → Match
unfolding match_end
match_value [] = none
match_value (b ∷ bytes) =
    let value = longer b (match_value bytes) in
    if (b == 13) || (b == 10) then match_end (b ∷ bytes) else value

-- After the first character of a name.
unfoldable pub match_name : Bytes → Match
unfolding match_value
match_name [] = none
match_name (b ∷ bytes) =
    let name = longer b (match_name bytes) in
    if is_token b then name else if b == 58 then longer b (match_value bytes) else none

unfoldable pub match_header_line : Bytes → Match
unfolding match_name match_end
match_header_line [] = none
match_header_line (b ∷ bytes) =
    if is_token b then longer b (match_name bytes) else match_end (b ∷ bytes)

abbrev pub all_white : Bytes → Bool
all_white [] = true
all_white (b ∷ bytes) = is_white b && all_white bytes

-- The header lines, the data that follows, and whether the blank line was seen.
unfoldable pub split_loop : ℕ → Bytes → Bytes × Bytes × Bool
unfolding match_header_line
split_loop zero buffer = ([], buffer, false)
split_loop (suc fuel) buffer = elim (match_header_line buffer) [
  | none ↦ ([], buffer, false)
  | some (line, rest) ↦
      let (head, leftover, complete) = split_loop fuel rest in
      if all_white line then (line, rest, true) else (line ++ head, leftover, complete)
]

unfoldable pub split_header_block : Bytes → Bytes × Bytes × Bool
unfolding split_loop
split_header_block buffer = split_loop (length buffer) buffer
