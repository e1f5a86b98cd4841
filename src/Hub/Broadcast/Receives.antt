-- ===== src/Hub/Broadcast/Receives.antt =====
-- What a destination gets of chunks from src/sp_rtk_base_relay/core/broadcast_hub.py.
use sp_rtk_base_relay.Prelude.{
  ℕ, ◌+◌, ◌-◌, ◌≡◌, refl, ◌∙◌, ap, ap₂, sym, true, false, not, List, [], ◌∷◌, ◌++◌, length,
  length-append, arith, if◌then◌else◌,
}
use sp_rtk_base_relay.Rtcm.{Bytes}
use sp_rtk_base_relay.Framing.{Parsed, parse_chunks}
use sp_rtk_base_relay.Filter.{FilterConfig, requires_parsing, filter_frames}
use sp_rtk_base_relay.Filter.Laws.{filter_frames-append, filter_frames-nil, length-filter_frames}
use sp_rtk_base_relay.Destination.{Destination, enqueue}
use sp_rtk_base_relay.Hub.Broadcast.{enqueue_all, add_filtered}

module _ {R : Type 0} where
  -- What a destination gets of these chunks with these frames in them, whatever the others are:
  -- nothing if it is disabled, the chunks themselves without a filter, and with one the frames that
  -- it lets through, in which case the others are counted.
  pub gets : List Parsed → List Bytes → Destination R → Destination R
  gets frames chunks d =
      let accepted = filter_frames d.filter frames in
      if not d.enabled
      then d
      else if not (requires_parsing d.filter)
      then enqueue_all chunks d
      else enqueue_all accepted (add_filtered (length frames - length accepted) d)

  -- The frames are those that the hub delimits after what its buffer holds.
  pub receives : Bytes → List Bytes → Destination R → Destination R
  receives buffer chunks d = gets (parse_chunks buffer chunks).0 chunks d

  pub receives_lem :
      (buffer : Bytes) (chunks : List Bytes) (d : Destination R)
      → receives buffer chunks d ≡ gets (parse_chunks buffer chunks).0 chunks d
  unfolding receives
  receives_lem buffer chunks d = refl

  abbrev pub IsAlike : Destination R → Destination R → Type 0
  IsAlike d d' = (d'.enabled ≡ d.enabled) × (d'.filter ≡ d.filter)

  pub enqueue-IsAlike : (d : Destination R) (bytes : Bytes) → IsAlike d (enqueue d bytes).0
  unfolding enqueue
  enqueue-IsAlike d bytes = ground arith

  enqueue_all-IsAlike : (xs : List Bytes) (d : Destination R) → IsAlike d (enqueue_all xs d)
  unfolding enqueue_all
  enqueue_all-IsAlike [] d = (refl, refl)
  enqueue_all-IsAlike (x ∷ xs) d =
      let (enabled, filter) = enqueue-IsAlike d x in
      let (enabled', filter') = enqueue_all-IsAlike xs (enqueue d x).0 in
      (enabled' ∙ enabled, filter' ∙ filter)

  enqueue_all-append :
      (xs ys : List Bytes) (d : Destination R)
      → enqueue_all (xs ++ ys) d ≡ enqueue_all ys (enqueue_all xs d)
  unfolding enqueue_all
  enqueue_all-append [] ys d = refl
  enqueue_all-append (x ∷ xs) ys d = enqueue_all-append xs ys (enqueue d x).0

  enqueue-add_filtered :
      (n : ℕ) (x : Bytes) (d : Destination R)
      → (enqueue (add_filtered n d) x).0 ≡ add_filtered n (enqueue d x).0
  unfolding enqueue add_filtered
  enqueue-add_filtered n x d = ground arith

  enqueue_all-add_filtered :
      (n : ℕ) (xs : List Bytes) (d : Destination R)
      → enqueue_all xs (add_filtered n d) ≡ add_filtered n (enqueue_all xs d)
  unfolding enqueue_all
  enqueue_all-add_filtered n [] d = refl
  enqueue_all-add_filtered n (x ∷ xs) d =
      ap (enqueue_all xs) (enqueue-add_filtered n x d)
      ∙ enqueue_all-add_filtered n xs (enqueue d x).0

  add_filtered-add :
      (m n : ℕ) (d : Destination R) → add_filtered n (add_filtered m d) ≡ add_filtered (m + n) d
  unfolding add_filtered
  add_filtered-add m n d =
      ap (λ (k : ℕ). record d { stats = record d.stats { messages_filtered = k } }) (omega arith)

  add_filtered-zero : (d : Destination R) → add_filtered 0 d ≡ d
  unfolding add_filtered
  add_filtered-zero d =
      ap (λ (k : ℕ). record d { stats = record d.stats { messages_filtered = k } }) (omega arith)

  pub receives_off :
      (buffer : Bytes) (chunks : List Bytes) (d : Destination R)
      → d.enabled ≡ false
      → receives buffer chunks d ≡ d
  unfolding receives gets
  receives_off buffer chunks d off = simp off refl

  pub receives_raw :
      (buffer : Bytes) (chunks : List Bytes) (d : Destination R)
      → d.enabled ≡ true
      → requires_parsing d.filter ≡ false
      → receives buffer chunks d ≡ enqueue_all chunks d
  unfolding receives gets
  receives_raw buffer chunks d on plain = simp (on, plain) refl

  -- The frames of a destination with this filter, and the number of those it does not get.
  unfoldable pub given : FilterConfig → List Parsed → Destination R → Destination R
  given config frames d =
      let accepted = filter_frames config frames in
      enqueue_all accepted (add_filtered (length frames - length accepted) d)

  pub receives_filtered :
      (buffer : Bytes) (chunks : List Bytes) (d : Destination R)
      → d.enabled ≡ true
      → requires_parsing d.filter ≡ true
      → receives buffer chunks d ≡ given d.filter (parse_chunks buffer chunks).0 d
  unfolding receives gets given
  receives_filtered buffer chunks d on filtered = simp (on, filtered) refl

  pub given-IsAlike :
      (config : FilterConfig) (frames : List Parsed) (d : Destination R)
      → IsAlike d (given config frames d)
  unfolding given add_filtered
  given-IsAlike config frames d = enqueue_all-IsAlike _ _

  pub given-nil : (config : FilterConfig) (d : Destination R) → given config [] d ≡ d
  unfolding given enqueue_all
  given-nil config d =
      ap (λ xs. enqueue_all xs (add_filtered (0 - length xs) d)) (filter_frames-nil config)
      ∙ ap (λ (n : ℕ). add_filtered n d) (omega arith)
      ∙ add_filtered-zero d

  pub given-append :
      (config : FilterConfig) (frames more : List Parsed) (d : Destination R)
      → given config more (given config frames d) ≡ given config (frames ++ more) d
  unfolding given
  given-append config frames more d =
      let first = filter_frames config frames in
      let second = filter_frames config more in
      let left_out = length frames - length first in
      let left_out' = length more - length second in
      let whole = filter_frames-append config frames more in
      let counted : left_out + left_out'
          ≡ length (frames ++ more) - length (filter_frames config (frames ++ more)) =
        omega (
          arith,
          length-filter_frames config frames,
          length-filter_frames config more,
          length-append frames more,
          length-append first second,
          ap (λ (l : List Bytes). length l) whole,
        ) in
      ap (enqueue_all second)
        (sym (enqueue_all-add_filtered left_out' first (add_filtered left_out d)))
      ∙ sym (enqueue_all-append first second (add_filtered left_out' (add_filtered left_out d)))
      ∙ ap (enqueue_all (first ++ second)) (add_filtered-add left_out left_out' d)
      ∙ ap₂ (λ (xs : List Bytes) (n : ℕ). enqueue_all xs (add_filtered n d)) (sym whole) counted
