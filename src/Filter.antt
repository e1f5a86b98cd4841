-- ===== src/Filter.antt =====
-- src/sp_rtk_base_relay/core/message_filter.py: which RTCM messages a destination gets.
-- A frozenset is a list of its members; only membership is read, and the order in which the check
-- of the members meets an invalid one.
pub mod Laws
mod Tests
use sp_rtk_base_relay.Prelude.{
  ℕ, Bool, true, false, not, ◌&&◌, ◌||◌, List, [], ◌∷◌, map, length, leb, if◌then◌else◌,
}
use sp_rtk_base_relay.Prelude.Int.{ℤ, pos, negsuc, ◌==ℤ◌}
use sp_rtk_base_relay.Rtcm.{Bytes}

pub data FilterMode : Type 0 where
  pass_all allowlist blocklist : FilterMode

pub record FilterConfig : Type 0 where
  pub mode : FilterMode
  pub message_ids : List ℤ

-- The ValueErrors of `__post_init__`.
pub data FilterError : Type 0 where
  ids_with_pass_all : FilterError
  no_ids : FilterMode → FilterError
  invalid_message_id : ℤ → FilterError

pub data Result {ℓ} (A : Type ℓ) : Type ℓ where
  ok : A → Result A
  err : FilterError → Result A

abbrev pub is_empty {ℓ} : {A : Type ℓ} → List A → Bool
is_empty [] = true
is_empty (x ∷ xs) = false

-- 0 <= msg_id <= 4095
abbrev pub in_range : ℤ → Bool
in_range (pos n) = leb n 4095
in_range (negsuc n) = false

abbrev pub is_pass_all : FilterMode → Bool
is_pass_all pass_all = true
is_pass_all allowlist = false
is_pass_all blocklist = false

check_ids : FilterConfig → List ℤ → Result FilterConfig
check_ids config [] = ok config
check_ids config (msg_id ∷ rest) =
    let later = check_ids config rest in
    if not (in_range msg_id) then err (invalid_message_id msg_id) else later

-- FilterConfig(mode=…, message_ids=…), with its `__post_init__`.
pub create : FilterMode → List ℤ → Result FilterConfig
unfolding check_ids
create mode message_ids =
    let config : FilterConfig = record { mode = mode; message_ids = message_ids } in
    if is_pass_all mode && not (is_empty message_ids)
    then err ids_with_pass_all
    else if not (is_pass_all mode) && is_empty message_ids
    then err (no_ids mode)
    else check_ids config message_ids

abbrev pub create_pass_all : Result FilterConfig
create_pass_all = create pass_all []

abbrev pub create_allowlist : List ℤ → Result FilterConfig
create_allowlist = create allowlist

abbrev pub create_blocklist : List ℤ → Result FilterConfig
create_blocklist = create blocklist

-- `requires_parsing` of the filter with this configuration.
unfoldable pub requires_parsing : FilterConfig → Bool
requires_parsing config = not (is_pass_all config.mode)

unfoldable pub contains : List ℤ → ℕ → Bool
contains [] message_id = false
contains (i ∷ rest) message_id = i ==ℤ pos message_id || contains rest message_id

pub should_pass_mode : FilterMode → List ℤ → ℕ → Bool
should_pass_mode pass_all ids message_id = true
should_pass_mode allowlist ids message_id = contains ids message_id
should_pass_mode blocklist ids message_id = not (contains ids message_id)

pub should_pass : FilterConfig → ℕ → Bool
unfolding should_pass_mode
should_pass config message_id = should_pass_mode config.mode config.message_ids message_id

-- `for message_id, frame_bytes in frames: if self.should_pass(message_id): passed.append(…)`
filter_loop : FilterConfig → List (ℕ × Bytes) → List Bytes
filter_loop config [] = []
filter_loop config ((message_id, frame_bytes) ∷ frames) =
    let passed = filter_loop config frames in
    if should_pass config message_id then frame_bytes ∷ passed else passed

pub filter_frames : FilterConfig → List (ℕ × Bytes) → List Bytes
unfolding filter_loop
filter_frames config frames =
    if is_pass_all config.mode
    then map (λ (frame : ℕ × Bytes). frame.1) frames
    else filter_loop config frames
