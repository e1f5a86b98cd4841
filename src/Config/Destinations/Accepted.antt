-- ===== src/Config/Destinations/Accepted.antt =====
-- Which lists of destinations src/sp_rtk_base_relay/config.py accepts.
use sp_rtk_base_relay.Prelude.{
  ◌≡◌, ◌≢◌, refl, sym, ap, subst, ◌⊎◌, inl, inr, ◌↔◌, String, true, false, List, [], ◌∷◌, map, All,
  arith, Bool-cases,
}
use sp_rtk_base_relay.Prelude.Text.{same_text, same_text_iff}
use sp_rtk_base_relay.Filter.{is_empty}
use sp_rtk_base_relay.Config.{ConfigurationError, is_one_of}
use sp_rtk_base_relay.Config.Destinations.{
  DestinationConfig, Parsed, parsed, raises, read_loop, read_destinations, get_enabled_destinations,
}

-- No two destinations have one name.
unfoldable pub IsDistinct : List DestinationConfig → Type 0
IsDistinct [] = Unit
IsDistinct (d ∷ ds) = All (λ (e : DestinationConfig). d.name ≢ e.name) ds × IsDistinct ds

pub record IsRead (seen : List String) (entries : List (Parsed DestinationConfig))
    (ds : List DestinationConfig) : Type 0 where
  pub whole : entries ≡ map (λ d. parsed d) ds
  pub distinct : IsDistinct ds
  pub unseen : All (λ (d : DestinationConfig). is_one_of d.name seen ≡ false) ds

Parsed-cases :
    {A : Type 0} (p : Parsed A)
    → ((a : A) × (p ≡ parsed a)) ⊎ ((e : ConfigurationError) × (p ≡ raises e))
Parsed-cases (parsed a) = inl (a, refl)
Parsed-cases (raises e) = inr (e, refl)

-- A name that is not among the seen ones with another is not the other.
split_seen :
    (name : String) (seen : List String) (ds : List DestinationConfig)
    → All (λ (d : DestinationConfig). is_one_of d.name (name ∷ seen) ≡ false) ds
    → All (λ (d : DestinationConfig). name ≢ d.name) ds
      × All (λ (d : DestinationConfig). is_one_of d.name seen ≡ false) ds
unfolding is_one_of
split_seen name seen [] h = (tt, tt)
split_seen name seen (d ∷ ds) h =
    let (others, unseen) = split_seen name seen ds h.1 in
    (
      ((λ e. ground (arith, h.0, (same_text_iff d.name name).1 (sym e))), others),
      (ground (arith, h.0), unseen),
    )

join_seen :
    (name : String) (seen : List String) (ds : List DestinationConfig)
    → All (λ (d : DestinationConfig). name ≢ d.name) ds
    → All (λ (d : DestinationConfig). is_one_of d.name seen ≡ false) ds
    → All (λ (d : DestinationConfig). is_one_of d.name (name ∷ seen) ≡ false) ds
unfolding is_one_of
join_seen name seen [] h k = tt
join_seen name seen (d ∷ ds) h k = (
  elim (Bool-cases (same_text d.name name)) [
    | inl same ↦ absurd (h.0 (sym ((same_text_iff d.name name).0 same)))
    | inr other ↦ rw other (k.0)
  ],
  join_seen name seen ds h.1 k.1,
)

module _ (seen : List String) (d : DestinationConfig)
    (entries : List (Parsed DestinationConfig)) where
  duplicate_step :
      is_one_of d.name seen ≡ true
      → read_loop seen (parsed d ∷ entries)
        ≡ raises (record { message = "Duplicate destination name" })
  unfolding read_loop
  duplicate_step e = simp e refl

  raising_step :
      (error : ConfigurationError)
      → is_one_of d.name seen ≡ false
      → read_loop (d.name ∷ seen) entries ≡ raises error
      → read_loop seen (parsed d ∷ entries) ≡ raises error
  unfolding read_loop
  raising_step error new e = simp (new, e) refl

  reading_step :
      (ds : List DestinationConfig)
      → is_one_of d.name seen ≡ false
      → read_loop (d.name ∷ seen) entries ≡ parsed ds
      → read_loop seen (parsed d ∷ entries) ≡ parsed (d ∷ ds)
  unfolding read_loop
  reading_step ds new e = simp (new, e) refl

read_loop-IsRead :
    (seen : List String) (entries : List (Parsed DestinationConfig)) (ds : List DestinationConfig)
    → read_loop seen entries ≡ parsed ds
    → IsRead seen entries ds
unfolding read_loop IsDistinct
read_loop-IsRead seen [] [] h = record { whole = refl; distinct = tt; unseen = tt }
read_loop-IsRead seen [] (d ∷ ds) h = absurd (cc h)
read_loop-IsRead seen (raises e ∷ entries) ds h = absurd (cc h)
read_loop-IsRead seen (parsed d ∷ entries) ds h = elim (Bool-cases (is_one_of d.name seen)) [
  | inl duplicate ↦ absurd (cc (h, duplicate_step seen d entries duplicate))
  | inr new ↦ elim (Parsed-cases (read_loop (d.name ∷ seen) entries)) [
    | inr (error, e) ↦ absurd (cc (h, raising_step seen d entries error new e))
    | inl (rest, e) ↦
        let r = read_loop-IsRead (d.name ∷ seen) entries rest e in
        let (others, unseen) = split_seen d.name seen rest r.unseen in
        let same : d ∷ rest ≡ ds = cc (h, reading_step seen d entries rest new e) in
        subst (IsRead seen (parsed d ∷ entries)) same (record {
          whole = ap (λ l. parsed d ∷ l) r.whole;
          distinct = (others, r.distinct);
          unseen = (new, unseen);
        })
  ]
]

read_loop_complete :
    (seen : List String) (ds : List DestinationConfig)
    → IsDistinct ds
    → All (λ (d : DestinationConfig). is_one_of d.name seen ≡ false) ds
    → read_loop seen (map (λ d. parsed d) ds) ≡ parsed ds
unfolding IsDistinct read_loop
read_loop_complete seen [] distinct unseen = refl
read_loop_complete seen (d ∷ ds) distinct unseen =
    reading_step seen d (map (λ d. parsed d) ds) ds unseen.0 (
      read_loop_complete (d.name ∷ seen) ds distinct.1
        (join_seen d.name seen ds distinct.0 unseen.1))

all_unseen :
    (ds : List DestinationConfig) → All (λ (d : DestinationConfig). is_one_of d.name [] ≡ false) ds
unfolding is_one_of
all_unseen [] = tt
all_unseen (d ∷ ds) = (refl, all_unseen ds)

-- What makes a list of entries a list of destinations.
pub record IsAccepted (entries : List (Parsed DestinationConfig)) (ds : List DestinationConfig)
    : Type 0 where
  pub whole : entries ≡ map (λ d. parsed d) ds
  pub distinct : IsDistinct ds
  pub enabled : is_empty (get_enabled_destinations ds) ≡ false

finish_read :
    (entries : List (Parsed DestinationConfig)) (ds : List DestinationConfig)
    → read_loop [] entries ≡ parsed ds
    → is_empty entries ≡ false
    → is_empty (get_enabled_destinations ds) ≡ false
    → read_destinations entries ≡ parsed ds
unfolding read_destinations
finish_read entries ds e nonempty enabled = simp (e, nonempty, enabled) refl

refuse_read :
    (entries : List (Parsed DestinationConfig)) (ds : List DestinationConfig)
    → read_loop [] entries ≡ parsed ds
    → is_empty entries ≡ false
    → is_empty (get_enabled_destinations ds) ≡ true
    → read_destinations entries
      ≡ raises (record { message = "At least one destination must be enabled" })
unfolding read_destinations
refuse_read entries ds e nonempty none_enabled = simp (e, nonempty, none_enabled) refl

pass_error :
    (entries : List (Parsed DestinationConfig)) (error : ConfigurationError)
    → read_loop [] entries ≡ raises error
    → is_empty entries ≡ false
    → read_destinations entries ≡ raises error
unfolding read_destinations
pass_error entries error e nonempty = simp (e, nonempty) refl

no_entries :
    (entries : List (Parsed DestinationConfig))
    → is_empty entries ≡ true
    → read_destinations entries
      ≡ raises (record { message = "destinations must be a non-empty list" })
unfolding read_destinations
no_entries entries e = simp e refl

nonempty_entries :
    (ds : List DestinationConfig)
    → is_empty (get_enabled_destinations ds) ≡ false
    → is_empty (map (λ d. parsed d) ds) ≡ false
unfolding get_enabled_destinations
nonempty_entries [] h = absurd (cc h)
nonempty_entries (d ∷ ds) h = refl

read-IsAccepted :
    (entries : List (Parsed DestinationConfig)) (ds : List DestinationConfig)
    → read_destinations entries ≡ parsed ds
    → IsAccepted entries ds
read-IsAccepted entries ds h = elim (Bool-cases (is_empty entries)) [
  | inl empty ↦ absurd (cc (h, no_entries entries empty))
  | inr nonempty ↦ elim (Parsed-cases (read_loop [] entries)) [
    | inr (error, e) ↦ absurd (cc (h, pass_error entries error e nonempty))
    | inl (rest, e) ↦ elim (Bool-cases (is_empty (get_enabled_destinations rest))) [
      | inl none_enabled ↦ absurd (cc (h, refuse_read entries rest e nonempty none_enabled))
      | inr enabled ↦
          let r = read_loop-IsRead [] entries rest e in
          let same : rest ≡ ds = cc (h, finish_read entries rest e nonempty enabled) in
          subst (IsAccepted entries) same
            (record { whole = r.whole; distinct = r.distinct; enabled = enabled })
    ]
  ]
]

-- The list of destinations is accepted, as it is and in its order, exactly when every entry is a
-- destination, no two have one name, and at least one is enabled.
pub read_destinations_iff :
    (entries : List (Parsed DestinationConfig)) (ds : List DestinationConfig)
    → (read_destinations entries ≡ parsed ds) ↔ IsAccepted entries ds
read_destinations_iff entries ds = (
  read-IsAccepted entries ds,
  λ a.
      subst (λ l. read_destinations l ≡ parsed ds) (sym a.whole)
        (finish_read (map (λ d. parsed d) ds) ds
          (read_loop_complete [] ds a.distinct (all_unseen ds)) (nonempty_entries ds a.enabled)
          a.enabled),
)
