-- ===== src/Ntrip/Texts.antt =====
-- Python's texts as src/sp_rtk_base_relay/core/ntrip/protocol.py uses them. A text is the list of its
-- characters' codes. In a text that was decoded as ASCII these are below 128, or 65533 for a byte that
-- is not ASCII, so white space and line breaks are tested below 128.
use sp_rtk_base_relay.Prelude.{
  ℕ, ◌+◌, String, Bool, true, false, ◌&&◌, ◌||◌, Option, none, some, List, [], ◌∷◌, map, leb, ltb,
  ◌==◌, if◌then◌else◌,
}
use Prim.Native.Char.{code}
use sp_rtk_base_relay.Rtcm.{Bytes}

abbrev pub text_space : ℕ → Bool
text_space c = (leb 9 c && leb c 13) || (leb 28 c && leb c 32)

-- The breaks of str.splitlines(). Between a `\r` and its `\n` this gives an empty line more.
abbrev pub line_break : ℕ → Bool
line_break c = (leb 10 c && leb c 13) || (leb 28 c && leb c 30)

abbrev pub strip_start : (ℕ → Bool) → Bytes → Bytes
strip_start p [] = []
strip_start p (c ∷ text) = let rest = strip_start p text in if p c then rest else c ∷ text

abbrev pub strip_end : (ℕ → Bool) → Bytes → Bytes
strip_end p [] = []
strip_end p (c ∷ text) = elim (strip_end p text) [
  | [] ↦ if p c then [] else c ∷ []
  | d ∷ rest ↦ c ∷ d ∷ rest
]

abbrev pub strip : Bytes → Bytes
strip text = strip_end text_space (strip_start text_space text)

-- bytes.decode("ascii", errors="replace")
abbrev pub decode : Bytes → Bytes
decode = map (λ b. if ltb b 128 then b else 65533)

abbrev pub lower : Bytes → Bytes
lower = map (λ c. if leb 65 c && leb c 90 then c + 32 else c)

abbrev pub codes : String → Bytes
codes String.[] = []
codes (String.◌∷◌ c text) = code c ∷ codes text

abbrev pub same_codes : Bytes → Bytes → Bool
same_codes [] [] = true
same_codes [] (d ∷ other) = false
same_codes (c ∷ text) [] = false
same_codes (c ∷ text) (d ∷ other) = (c == d) && same_codes text other

abbrev pub starts_with : Bytes → Bytes → Bool
starts_with [] text = true
starts_with (c ∷ start) [] = false
starts_with (c ∷ start) (d ∷ text) = (c == d) && starts_with start text

abbrev pub join_first : ℕ → List Bytes → List Bytes
join_first c [] = (c ∷ []) ∷ []
join_first c (part ∷ parts) = (c ∷ part) ∷ parts

-- The parts of a text between the characters that satisfy `p`.
abbrev pub split_at : (ℕ → Bool) → Bytes → List Bytes
split_at p [] = []
split_at p (c ∷ text) =
    let parts = split_at p text in if p c then [] ∷ parts else join_first c parts

abbrev pub not_empty : List Bytes → List Bytes
not_empty [] = []
not_empty ([] ∷ parts) = not_empty parts
not_empty ((c ∷ part) ∷ parts) = (c ∷ part) ∷ not_empty parts

-- text.partition(mark): `none` without the mark.
abbrev pub partition_at : ℕ → Bytes → Option (Bytes × Bytes)
partition_at mark [] = none
partition_at mark (c ∷ text) =
    let later = elim (partition_at mark text) as (λ x. Option (Bytes × Bytes)) [
      | none ↦ none
      | some (before, after) ↦ some (c ∷ before, after)
    ] in
    if c == mark then some ([], text) else later

abbrev pub put_header : Bytes → Bytes → List (Bytes × Bytes) → List (Bytes × Bytes)
put_header name value [] = (name, value) ∷ []
put_header name value ((n, v) ∷ headers) =
    let rest = put_header name value headers in
    if same_codes n name then (n, value) ∷ headers else (n, v) ∷ rest

abbrev pub get_header : Bytes → List (Bytes × Bytes) → Bytes
get_header name [] = []
get_header name ((n, v) ∷ headers) =
    let rest = get_header name headers in if same_codes n name then v else rest
