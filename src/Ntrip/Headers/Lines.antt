-- ===== src/Ntrip/Headers/Lines.antt =====
-- The header lines of src/sp_rtk_base_relay/core/ntrip/protocol.py, when more bytes come.
use sp_rtk_base_relay.Prelude.{
  ℕ, zero, suc, ◌≤◌, ◌≡◌, refl, ◌∙◌, sym, ap, subst, inl, inr, Bool, true, false, ◌||◌, none, some,
  [], ◌∷◌, ◌++◌, length, length-append, arith, Bool-cases, Option-cases, ◌==◌, if◌then◌else◌,
}
use sp_rtk_base_relay.Rtcm.{Bytes}
use sp_rtk_base_relay.Ntrip.Headers.{
  Match, longer, is_token, match_newline, match_end, match_value, match_name, match_header_line,
  all_white, split_loop, split_header_block,
}

-- What matched still matches when more bytes come, and they follow.
unfoldable IsGrown : Bytes → Match → Match → Type 0
IsGrown more none grown = Unit
IsGrown more (some (line, rest)) grown = grown ≡ some (line, rest ++ more)

longer-IsGrown :
    (more : Bytes) (b : ℕ) (before grown : Match)
    → IsGrown more before grown
    → IsGrown more (longer b before) (longer b grown)
unfolding IsGrown
longer-IsGrown more b none grown h = tt
longer-IsGrown more b (some (line, rest)) grown h = ap (longer b) h

if-IsGrown :
    (more : Bytes) (test : Bool) (x y x' y' : Match)
    → IsGrown more x x'
    → IsGrown more y y'
    → IsGrown more (if test then x else y) (if test then x' else y')
if-IsGrown more true x y x' y' h k = h
if-IsGrown more false x y x' y' h k = k

module _ (more : Bytes) where
  match_newline-IsGrown :
      (bytes : Bytes) → IsGrown more (match_newline bytes) (match_newline (bytes ++ more))
  unfolding match_newline IsGrown
  match_newline-IsGrown [] = tt
  match_newline-IsGrown (b ∷ bytes) = if-IsGrown more (b == 10) _ none _ none refl tt

  match_end-IsGrown : (bytes : Bytes) → IsGrown more (match_end bytes) (match_end (bytes ++ more))
  unfolding match_end IsGrown
  match_end-IsGrown [] = tt
  match_end-IsGrown (b ∷ bytes) =
      if-IsGrown more (b == 13) _ _ _ _ (longer-IsGrown more 13 _ _ (match_newline-IsGrown bytes))
        (match_newline-IsGrown (b ∷ bytes))

  match_value-IsGrown :
      (bytes : Bytes) → IsGrown more (match_value bytes) (match_value (bytes ++ more))
  unfolding match_value IsGrown
  match_value-IsGrown [] = tt
  match_value-IsGrown (b ∷ bytes) =
      if-IsGrown more ((b == 13) || (b == 10)) _ _ _ _ (match_end-IsGrown (b ∷ bytes))
        (longer-IsGrown more b _ _ (match_value-IsGrown bytes))

  match_name-IsGrown :
      (bytes : Bytes) → IsGrown more (match_name bytes) (match_name (bytes ++ more))
  unfolding match_name IsGrown
  match_name-IsGrown [] = tt
  match_name-IsGrown (b ∷ bytes) =
      if-IsGrown more (is_token b) _ _ _ _ (longer-IsGrown more b _ _ (match_name-IsGrown bytes)) (
        if-IsGrown more (b == 58) _ none _ none
          (longer-IsGrown more b _ _ (match_value-IsGrown bytes)) tt)

  match_header_line-IsGrown :
      (bytes : Bytes) → IsGrown more (match_header_line bytes) (match_header_line (bytes ++ more))
  unfolding match_header_line IsGrown
  match_header_line-IsGrown [] = tt
  match_header_line-IsGrown (b ∷ bytes) =
      if-IsGrown more (is_token b) _ _ _ _ (longer-IsGrown more b _ _ (match_name-IsGrown bytes))
        (match_end-IsGrown (b ∷ bytes))

abbrev Split : Type 0
Split = Bytes × Bytes × Bool

-- What follows a header line once the rest is split.
abbrev split_more : Bytes → Bytes → Split → Split
split_more line rest (head, leftover, complete) =
    if all_white line then (line, rest, true) else (line ++ head, leftover, complete)

split_loop-none :
    (fuel : ℕ) (buffer : Bytes)
    → match_header_line buffer ≡ none
    → split_loop (suc fuel) buffer ≡ ([], buffer, false)
unfolding split_loop
split_loop-none fuel buffer h = rw (h, split_loop) refl

split_loop-some :
    (fuel : ℕ) (buffer line rest : Bytes)
    → match_header_line buffer ≡ some (line, rest)
    → split_loop (suc fuel) buffer ≡ split_more line rest (split_loop fuel rest)
unfolding split_loop
split_loop-some fuel buffer line rest h = rw (h, split_loop) refl

match_header_line_more :
    (buffer more line rest : Bytes)
    → match_header_line buffer ≡ some (line, rest)
    → match_header_line (buffer ++ more) ≡ some (line, rest ++ more)
unfolding IsGrown
match_header_line_more buffer more line rest h =
    subst (λ before. IsGrown more before (match_header_line (buffer ++ more))) h
      (match_header_line-IsGrown more buffer)

split_more_complete :
    (line rest more head leftover : Bytes) (split grown : Split)
    → ((split.2 ≡ true) → ◌≡◌ {A = Split} grown (split.0, split.1 ++ more, true))
    → ◌≡◌ {A = Split} (split_more line rest split) (head, leftover, true)
    → ◌≡◌ {A = Split} (split_more line (rest ++ more) grown) (head, leftover ++ more, true)
split_more_complete line rest more head leftover (h, l, c) grown step e =
    elim (Bool-cases (all_white line)) [
      | inl blank ↦
          let e' : ◌≡◌ {A = Split} (line, rest, true) (head, leftover, true) = rw blank at e in
          rw blank (ap (λ (s : Split). (s.0, s.1 ++ more, true)) e')
      | inr header ↦
          let e' : ◌≡◌ {A = Split} (line ++ h, l, c) (head, leftover, true) = rw header at e in
          rw (header, step (ap (λ (s : Split). s.2) e'))
            (ap (λ (s : Split). (s.0, s.1 ++ more, true)) e')
    ]

-- A complete block is the same with more fuel and more bytes, which are left over.
split_loop_complete :
    (fuel fuel' : ℕ) (buffer more head leftover : Bytes)
    → fuel ≤ fuel'
    → ◌≡◌ {A = Split} (split_loop fuel buffer) (head, leftover, true)
    → ◌≡◌ {A = Split} (split_loop fuel' (buffer ++ more)) (head, leftover ++ more, true)
unfolding split_loop
split_loop_complete zero fuel' buffer more head leftover n h = absurd (cc h)
split_loop_complete (suc fuel) zero buffer more head leftover n h = absurd (omega (arith, n))
split_loop_complete (suc fuel) (suc fuel') buffer more head leftover n h =
    elim (Option-cases (match_header_line buffer)) [
      | inl nothing ↦ absurd (cc (sym (split_loop-none fuel buffer nothing) ∙ h))
      | inr ((line, rest), found) ↦
          split_loop-some fuel' (buffer ++ more) line (rest ++ more)
            (match_header_line_more buffer more line rest found)
          ∙ split_more_complete line rest more head leftover (split_loop fuel rest)
              (split_loop fuel' (rest ++ more))
              (λ c.
                split_loop_complete fuel fuel' rest more (split_loop fuel rest).0
                  (split_loop fuel rest).1 (omega (arith, n))
                  (ap (λ t. ((split_loop fuel rest).0, (split_loop fuel rest).1, t)) c))
              (sym (split_loop-some fuel buffer line rest found) ∙ h)
    ]

-- When more bytes come, a complete header block is split off the same and they are left over.
pub split_header_block-append :
    (buffer more : Bytes)
    → ((split_header_block buffer).2 ≡ true)
    → ◌≡◌ {A = Split}
        (split_header_block (buffer ++ more))
        ((split_header_block buffer).0, (split_header_block buffer).1 ++ more, true)
unfolding split_header_block
split_header_block-append buffer more h =
    split_loop_complete (length buffer) (length (buffer ++ more)) buffer more
      (split_loop (length buffer) buffer).0 (split_loop (length buffer) buffer).1
      (omega (arith, length-append buffer more))
      (ap (λ t. ((split_loop (length buffer) buffer).0, (split_loop (length buffer) buffer).1, t))
        h)
