-- ===== src/Filter/Laws.antt =====
-- What src/sp_rtk_base_relay/core/message_filter.py lets through.
use mathlib.Core.List.{Perm, perm_middle, map-append}
use mathlib.Core.List.Perm
use sp_rtk_base_relay.Prelude.{
  suc, ap, ◌≤◌, ℕ, ◌+◌, ◌≡◌, refl, inl, inr, ◌↔◌, ◌⊎◌, ◌∙◌, true, false, List, [], ◌∷◌, ◌++◌, map,
  length, arith, All, Bool-cases,
}
use sp_rtk_base_relay.Prelude.Int.{ℤ}
use sp_rtk_base_relay.Rtcm.{Bytes}
use sp_rtk_base_relay.Filter.{
  FilterMode, pass_all, allowlist, blocklist, FilterConfig, ok, err, invalid_message_id, create,
  check_ids, in_range, should_pass, contains, filter_frames, filter_loop, is_empty, is_pass_all,
}

abbrev pub frame_bytes : ℕ × Bytes → Bytes
frame_bytes frame = frame.1

-- The IDs that a mode may have.
abbrev pub IsAllowed : FilterMode → List ℤ → Type 0
IsAllowed pass_all ids = ids ≡ []
IsAllowed allowlist ids = (is_empty ids ≡ false) × All (λ i. in_range i ≡ true) ids
IsAllowed blocklist ids = (is_empty ids ≡ false) × All (λ i. in_range i ≡ true) ids

check_ids_sound :
    (config : FilterConfig) (ids : List ℤ)
    → check_ids config ids ≡ ok config
    → All (λ i. in_range i ≡ true) ids
unfolding check_ids
check_ids_sound config [] h = tt
check_ids_sound config (i ∷ ids) h = ground (arith, check_ids_sound config ids)

check_ids_complete :
    (config : FilterConfig) (ids : List ℤ)
    → All (λ i. in_range i ≡ true) ids
    → check_ids config ids ≡ ok config
unfolding check_ids
check_ids_complete config [] h = refl
check_ids_complete config (i ∷ ids) h = rw h.0 (check_ids_complete config ids h.1)

-- A configuration is accepted, as it is, exactly when its IDs are allowed for its mode: none for
-- pass_all, and for the others at least one, each from 0 to 4095.
pub create_iff :
    (mode : FilterMode) (ids : List ℤ)
    → (create mode ids ≡ ok (record { mode = mode; message_ids = ids })) ↔ IsAllowed mode ids
unfolding create
create_iff pass_all [] = ((λ h. refl), λ h. refl)
create_iff pass_all (i ∷ ids) = ((λ h. cc), λ h. cc)
create_iff allowlist [] = ((λ h. cc), λ h. cc (h.0))
create_iff allowlist (i ∷ ids) =
    ((λ h. (refl, check_ids_sound _ (i ∷ ids) h)), λ h. check_ids_complete _ (i ∷ ids) h.1)
create_iff blocklist [] = ((λ h. cc), λ h. cc (h.0))
create_iff blocklist (i ∷ ids) =
    ((λ h. (refl, check_ids_sound _ (i ∷ ids) h)), λ h. check_ids_complete _ (i ∷ ids) h.1)

-- The first ID that is not from 0 to 4095.
abbrev pub IsFirstOutside : List ℤ → ℤ → Type 0
IsFirstOutside ids i =
    (before : List ℤ) × (after : List ℤ) × (ids ≡ before ++ i ∷ after)
    × All (λ j. in_range j ≡ true) before
    × (in_range i ≡ false)

check_ids_cases :
    (config : FilterConfig) (ids : List ℤ)
    → ((check_ids config ids ≡ ok config) × All (λ i. in_range i ≡ true) ids)
      ⊎ ((i : ℤ) × (check_ids config ids ≡ err (invalid_message_id i)) × IsFirstOutside ids i)
unfolding check_ids
check_ids_cases config [] = inl (refl, tt)
check_ids_cases config (i ∷ ids) = elim (Bool-cases (in_range i)) [
  | inr outside ↦
      let refused : check_ids config (i ∷ ids) ≡ err (invalid_message_id i) = rw outside refl in
      inr (i, refused, ([], ids, refl, tt, outside))
  | inl inside ↦
      let passed : check_ids config (i ∷ ids) ≡ check_ids config ids = rw inside refl in
      elim (check_ids_cases config ids) [
        | inl (fine, all) ↦ inl (passed ∙ fine, (inside, all))
        | inr (j, refused, (before, after, split, all, outside)) ↦ inr (
          j,
          passed ∙ refused,
          (i ∷ before, after, ap (λ l. i ∷ l) split, (inside, all), outside),
        )
      ]
]

-- With IDs that a mode needs, a configuration is accepted, or refused for the first ID outside.
pub create_cases :
    (mode : FilterMode) (i : ℤ) (ids : List ℤ)
    → is_pass_all mode ≡ false
    → ((create mode (i ∷ ids) ≡ ok (record { mode = mode; message_ids = i ∷ ids }))
        × All (λ j. in_range j ≡ true) (i ∷ ids))
      ⊎ ((j : ℤ) × (create mode (i ∷ ids) ≡ err (invalid_message_id j))
          × IsFirstOutside (i ∷ ids) j)
unfolding create
create_cases pass_all i ids h = absurd (cc h)
create_cases allowlist i ids h = check_ids_cases _ (i ∷ ids)
create_cases blocklist i ids h = check_ids_cases _ (i ∷ ids)

-- The two lists of a set of IDs share out the frames: each frame goes to exactly one of them, with
-- none lost and none twice, and the hub's count of filtered messages is the length of the other.
pub filter_frames_partition :
    (ids : List ℤ) (frames : List (ℕ × Bytes))
    → let allow = filter_frames (record { mode = allowlist; message_ids = ids }) frames in
      let block = filter_frames (record { mode = blocklist; message_ids = ids }) frames in
      Perm (allow ++ block) (map frame_bytes frames) × (length frames ≡ length allow + length block)
unfolding filter_frames should_pass
filter_frames_partition ids [] = (Perm.refl [], refl)
filter_frames_partition ids ((message_id, bytes) ∷ frames) =
    let allow = filter_frames (record { mode = allowlist; message_ids = ids }) frames in
    let block = filter_frames (record { mode = blocklist; message_ids = ids }) frames in
    let (perm, sum) = filter_frames_partition ids frames in
    elim (Bool-cases (contains ids message_id)) [
      | inl listed ↦ rw (listed, filter_loop) (Perm.cons bytes perm, omega (arith, sum))
      | inr other ↦
          rw (other, filter_loop)
            (Perm.trans (perm_middle allow block) (Perm.cons bytes perm), omega (arith, sum))
    ]

filter_loop-append :
    (config : FilterConfig) (frames more : List (ℕ × Bytes))
    → filter_loop config (frames ++ more) ≡ filter_loop config frames ++ filter_loop config more
unfolding filter_loop
filter_loop-append config [] more = refl
filter_loop-append config ((message_id, bytes) ∷ frames) more =
    ground (arith, filter_loop-append config frames more)

-- Filtering goes frame by frame: what passes of two runs of frames is what passes of the first and
-- then what passes of the second.
pub filter_frames-append :
    (config : FilterConfig) (frames more : List (ℕ × Bytes))
    → filter_frames config (frames ++ more)
      ≡ filter_frames config frames ++ filter_frames config more
unfolding filter_frames
filter_frames-append config frames more = elim (Bool-cases (is_pass_all config.mode)) [
  | inl all ↦ rw all (map-append frame_bytes frames more)
  | inr some_mode ↦ rw some_mode (filter_loop-append config frames more)
]

length-filter_loop :
    (config : FilterConfig) (frames : List (ℕ × Bytes))
    → length (filter_loop config frames) ≤ length frames
unfolding filter_loop
length-filter_loop config [] = omega arith
length-filter_loop config ((message_id, bytes) ∷ frames) =
    ground (arith, length-filter_loop config frames)

length-frame_bytes : (frames : List (ℕ × Bytes)) → length (map frame_bytes frames) ≡ length frames
length-frame_bytes [] = refl
length-frame_bytes (frame ∷ frames) = ap suc (length-frame_bytes frames)

pub length-filter_frames :
    (config : FilterConfig) (frames : List (ℕ × Bytes))
    → length (filter_frames config frames) ≤ length frames
unfolding filter_frames
length-filter_frames config frames = elim (Bool-cases (is_pass_all config.mode)) [
  | inl all ↦ rw all (omega (arith, length-frame_bytes frames))
  | inr some_mode ↦ rw some_mode (length-filter_loop config frames)
]

pub filter_frames-nil : (config : FilterConfig) → filter_frames config [] ≡ []
unfolding filter_frames filter_loop
filter_frames-nil config = ground arith
