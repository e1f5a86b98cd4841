-- ===== src/Hub/Consistency/Steps.antt =====
-- Each call of the hub of src/sp_rtk_base_relay/core/broadcast_hub.py is built of parts that keep it consistent.
use sp_rtk_base_relay.Prelude.{
  ◌≡◌, ◌≢◌, refl, ◌∙◌, ap, ap₂, sym, subst, ◌⊎◌, inl, inr, String, Bool, false, not, ◌&&◌, ◌||◌,
  Option, none, some, List, [], ◌∷◌, ◌++◌, All, All-append, Bool-cases, arith,
}
use sp_rtk_base_relay.Prelude.Text.{same_text, same_text_iff}
use sp_rtk_base_relay.Filter.{is_empty, requires_parsing}
use sp_rtk_base_relay.Destination.{Destination}
use sp_rtk_base_relay.Destination.Identity.{IsSame}
use sp_rtk_base_relay.Subscription.{FrameSubscription}
use sp_rtk_base_relay.Hub.{
  BroadcastHub, any_filters, recalculate_needs_parsing, get_in, push_front, pop_named, update_named,
}
use sp_rtk_base_relay.Hub.Consistency.{names, IsUnique, IsConsistent}

pub IsUnique-snoc :
    (ns : List String) (n : String) → IsUnique ns → All (λ m. m ≢ n) ns → IsUnique (ns ++ n ∷ [])
IsUnique-snoc [] n h others = (tt, tt)
IsUnique-snoc (m ∷ ns) n h others = (
  All-append (λ k. k ≢ m) ns (n ∷ []) h.0 (λ e. others.0 (sym e), tt),
  IsUnique-snoc ns n h.1 others.1,
)

was_off : (was needs : Bool) → (was && not needs) ≡ false → needs ≡ false → was ≡ false
was_off was needs h off = ground (arith, h, off)

module _ {R : Type 0} where
  pub names-append :
      (ds : List (Destination R)) (d : Destination R)
      → names (ds ++ d ∷ []) ≡ names ds ++ d.name ∷ []
  names-append [] d = refl
  names-append (e ∷ ds) d = ap (λ ns. e.name ∷ ns) (names-append ds d)

  pub get_in-none :
      (ds : List (Destination R)) (name : String)
      → get_in ds name ≡ none
      → All (λ m. m ≢ name) (names ds)
  unfolding get_in
  get_in-none [] name h = tt
  get_in-none (d ∷ ds) name h = elim (Bool-cases (same_text d.name name)) [
    | inl same ↦ absurd (ground (arith, same, h))
    | inr other ↦ (
      λ e. ground (arith, (same_text_iff d.name name).1 e, other),
      get_in-none ds name (ground (arith, other, h)),
    )
  ]

  -- What holds of the names that are left, if one was taken out.
  Left : (List String → Type 0) → Option (Destination R × List (Destination R)) → Type 0
  Left P none = Unit
  Left P (some (found, others)) = P (names others)

  pop_named-All :
      (P : String → Type 0) (ds : List (Destination R)) (name : String)
      → All P (names ds)
      → Left (All P) (pop_named ds name)
  unfolding pop_named Left push_front
  pop_named-All P [] name h = tt
  pop_named-All P (d ∷ ds) name h = elim (Bool-cases (same_text d.name name)) [
    | inl same ↦ rw same h.1
    | inr other ↦ rw other (push (pop_named ds name) (pop_named-All P ds name h.1))
  ]
    where
      push :
          (later : Option (Destination R × List (Destination R)))
          → Left (All P) later
          → Left (All P) (push_front d later)
      push none l = tt
      push (some (found, others)) l = (h.0, l)

  pop_named-IsUnique :
      (ds : List (Destination R)) (name : String)
      → IsUnique (names ds)
      → Left IsUnique (pop_named ds name)
  unfolding pop_named Left push_front
  pop_named-IsUnique [] name h = tt
  pop_named-IsUnique (d ∷ ds) name h = elim (Bool-cases (same_text d.name name)) [
    | inl same ↦ rw same h.1
    | inr other ↦ rw other (
        push (pop_named ds name) (pop_named-All (λ m. m ≢ d.name) ds name h.0)
          (pop_named-IsUnique ds name h.1))
  ]
    where
      push :
          (later : Option (Destination R × List (Destination R)))
          → Left (All (λ m. m ≢ d.name)) later
          → Left IsUnique later
          → Left IsUnique (push_front d later)
      push none other l = tt
      push (some (found, others)) other l = (other, l)

  pub popped-IsUnique :
      (ds : List (Destination R)) (name : String) (found : Destination R)
      (others : List (Destination R))
      → pop_named ds name ≡ some (found, others)
      → IsUnique (names ds)
      → IsUnique (names others)
  unfolding Left
  popped-IsUnique ds name found others e h = subst (Left IsUnique) e (pop_named-IsUnique ds name h)

  recalculate_parts :
      (h : BroadcastHub R)
      → let h' = recalculate_needs_parsing h in
        let needs = not (is_empty h.frame_subscribers) || any_filters h.destinations in
        (h'.destinations ≡ h.destinations)
        × (h'.frame_subscribers ≡ h.frame_subscribers)
        × (h'.any_needs_parsing ≡ needs)
        × ((h'.frame_buffer ≡ []) ⊎ ((h.any_needs_parsing && not needs) ≡ false))
        × ((h'.frame_buffer ≡ []) ⊎ (h'.frame_buffer ≡ h.frame_buffer))
  unfolding recalculate_needs_parsing
  recalculate_parts h =
      let needs = not (is_empty h.frame_subscribers) || any_filters h.destinations in
      elim (Bool-cases (h.any_needs_parsing && not needs)) [
        | inl both ↦ simp both (refl, refl, refl, inl refl, inl refl)
        | inr not_both ↦ simp not_both (refl, refl, refl, inr refl, inr refl)
      ]

  -- After a recalculation, the flag and the buffer are as they should be.
  pub recalculated :
      (h : BroadcastHub R)
      → IsUnique (names h.destinations)
      → (h.any_needs_parsing ≡ false → h.frame_buffer ≡ [])
      → IsConsistent (recalculate_needs_parsing h)
  recalculated h unique buffer =
      let (destinations, subscribers, needed, cleared, kept) = recalculate_parts h in
      let h' = recalculate_needs_parsing h in
      record {
        unique = subst (λ ds. IsUnique (names ds)) (sym destinations) unique;
        parsing =
            needed
            ∙ ap₂
                (λ (subs : List FrameSubscription) (ds : List (Destination R)).
                  not (is_empty subs) || any_filters ds)
                (sym subscribers) (sym destinations);
        buffer = λ off. elim cleared [
          | inl empty ↦ empty
          | inr not_both ↦ elim kept [
            | inl empty ↦ empty
            | inr same ↦ same ∙ buffer (was_off h.any_needs_parsing _ not_both (sym needed ∙ off))
          ]
        ];
      }

  pub update_named-names :
      (f : Destination R → Destination R) (name : String) (ds : List (Destination R))
      → ((d : Destination R) → IsSame d (f d))
      → (names (update_named f name ds) ≡ names ds)
        × (any_filters (update_named f name ds) ≡ any_filters ds)
  unfolding update_named any_filters
  update_named-names f name [] same = (refl, refl)
  update_named-names f name (d ∷ ds) same =
      let (later, later') = update_named-names f name ds same in
      elim (Bool-cases (same_text d.name name)) [
        | inl found ↦ rw found (
          ap (λ m. m ∷ names ds) (same d).0,
          ap (λ config. requires_parsing config || any_filters ds) (same d).1,
        )
        | inr other ↦
            rw other (ap (λ ns. d.name ∷ ns) later, ap (λ b. requires_parsing d.filter || b) later')
      ]
