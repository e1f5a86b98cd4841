-- ===== src/Factory/Creation.antt =====
-- Which destinations src/sp_rtk_base_relay/core/destinations/destination_factory.py creates.
use sp_rtk_base_relay.Prelude.{
  ◌≡◌, ◌≢◌, refl, ◌∙◌, sym, ap, inl, inr, ◌↔◌, Bool, not, ◌&&◌, none, some, List, [], ◌∷◌,
  Bool-cases, Option-cases, if◌then◌else◌,
}
use sp_rtk_base_relay.Destination.{Destination}
use sp_rtk_base_relay.Config.Destinations.{DestinationConfig}
use sp_rtk_base_relay.Factory.{
  Outcome, done, raises, Builder, Builders, get_builder, create, also_created, with_enabled,
  configuration_error, destination_error, other_error, create_loop, not_none_created, create_all,
}

-- The configurations that get a destination.
unfoldable pub wanted : Bool → List DestinationConfig → List DestinationConfig
wanted skip_disabled [] = []
wanted skip_disabled (c ∷ configs) =
    let rest = wanted skip_disabled configs in
    if skip_disabled && not c.enabled then rest else c ∷ rest

module _ {R : Type 0} (builders : Builders R) where
  -- The destination of a configuration: the registered builder gives it, and it is enabled as the
  -- configuration says.
  pub IsBuilt : DestinationConfig → Destination R → Type 0
  IsBuilt c d =
      (builder : Builder R) × (built : Destination R) × (get_builder c.dest_type builders
        ≡ some builder)
      × (builder c ≡ done built)
      × (record built { enabled = c.enabled } ≡ d)

  -- One destination for each configuration, in order.
  unfoldable pub AreBuilt : List DestinationConfig → List (Destination R) → Type 0
  AreBuilt [] [] = Unit
  AreBuilt [] (d ∷ ds) = ⊥
  AreBuilt (c ∷ configs) [] = ⊥
  AreBuilt (c ∷ configs) (d ∷ ds) = IsBuilt c d × AreBuilt configs ds

  with_enabled_iff :
      (c : DestinationConfig) (outcome : Outcome (Destination R)) (d : Destination R)
      → with_enabled c outcome ≡ done d
      → (built : Destination R) × (outcome ≡ done built)
        × (record built { enabled = c.enabled } ≡ d)
  with_enabled_iff c (done built) d h =
      let same : record built { enabled = c.enabled } ≡ d = cc h in (built, refl, same)
  with_enabled_iff c (raises (configuration_error text)) d h = absurd (cc h)
  with_enabled_iff c (raises (destination_error text)) d h = absurd (cc h)
  with_enabled_iff c (raises (other_error text)) d h = absurd (cc h)

  create_unknown :
      (c : DestinationConfig)
      → get_builder c.dest_type builders ≡ none
      → create builders c ≡ raises (configuration_error "Unknown destination type")
  unfolding create
  create_unknown c h = rw (h, create) refl

  create_found :
      (c : DestinationConfig) (builder : Builder R)
      → get_builder c.dest_type builders ≡ some builder
      → create builders c ≡ with_enabled c (builder c)
  unfolding create
  create_found c builder h = rw (h, create) refl

  create-IsBuilt :
      (c : DestinationConfig) (d : Destination R) → create builders c ≡ done d → IsBuilt c d
  unfolding create IsBuilt
  create-IsBuilt c d h = elim (Option-cases (get_builder c.dest_type builders)) [
    | inl unknown ↦ absurd (cc (create_unknown c unknown, h))
    | inr (builder, found) ↦
        let (built, builds, e) =
          with_enabled_iff c (builder c) d (sym (create_found c builder found) ∙ h) in
        (builder, built, found, builds, e)
  ]

  -- Every registered builder gives its destination the configured name.
  abbrev pub KeepsNames : Type 0
  KeepsNames =
      (c : DestinationConfig) (builder : Builder R) (built : Destination R)
      → get_builder c.dest_type builders ≡ some builder
      → builder c ≡ done built
      → built.name ≡ c.name

  pub create-name :
      KeepsNames
      → (c : DestinationConfig) (d : Destination R) → create builders c ≡ done d
      → d.name ≡ c.name
  unfolding IsBuilt
  create-name keeps c d h =
      let (builder, built, found, builds, e) = create-IsBuilt c d h in
      sym (ap (λ (k : Destination R). k.name) e) ∙ keeps c builder built found builds

  IsBuilt-create :
      (c : DestinationConfig) (d : Destination R) → IsBuilt c d → create builders c ≡ done d
  unfolding create IsBuilt
  IsBuilt-create c d (builder, built, found, builds, e) =
      create_found c builder found ∙ ap (with_enabled c) builds ∙ ap done e

  pub also_created_done :
      (created : Outcome (Destination R)) (rest : Outcome (List (Destination R)))
      (d : Destination R) (ds : List (Destination R))
      → also_created created rest ≡ done (d ∷ ds)
      → (created ≡ done d) × (rest ≡ done ds)
  also_created_done (raises e) rest d ds h = absurd (cc h)
  also_created_done (done d') (raises e) d ds h = absurd (cc h)
  also_created_done (done d') (done ds') d ds h =
      let first : d' ≡ d = cc h in let others : ds' ≡ ds = cc h in (ap done first, ap done others)

  pub also_created_some :
      (created : Outcome (Destination R)) (rest : Outcome (List (Destination R)))
      → also_created created rest ≢ done []
  also_created_some (raises e) rest h = absurd (cc h)
  also_created_some (done d') (raises e) h = absurd (cc h)
  also_created_some (done d') (done ds') h = absurd (cc h)

  create_loop_iff :
      (skip_disabled : Bool) (configs : List DestinationConfig) (ds : List (Destination R))
      → (create_loop builders skip_disabled configs ≡ done ds)
        ↔ AreBuilt (wanted skip_disabled configs) ds
  unfolding create_loop wanted AreBuilt
  create_loop_iff skip [] [] = ((λ h. tt), λ h. refl)
  create_loop_iff skip [] (d ∷ ds) = ((λ h. absurd (cc h)), λ h. absurd h)
  create_loop_iff skip (c ∷ configs) [] = elim (Bool-cases (skip && not c.enabled)) [
    | inl skipped ↦ rw skipped (create_loop_iff skip configs [])
    | inr made ↦ rw made (
      (λ h. absurd (also_created_some (create builders c) (create_loop builders skip configs) h)),
      λ h. absurd h,
    )
  ]
  create_loop_iff skip (c ∷ configs) (d ∷ ds) = elim (Bool-cases (skip && not c.enabled)) [
    | inl skipped ↦ rw skipped (create_loop_iff skip configs (d ∷ ds))
    | inr made ↦
        let later = create_loop_iff skip configs ds in
        rw made (
          (λ h.
              let (now, rest) =
                also_created_done (create builders c) (create_loop builders skip configs) d ds h in
              (create-IsBuilt c d now, later.0 rest)),
          λ h. rw (IsBuilt-create c d h.0, later.1 h.1) refl,
        )
  ]

  not_none_created_iff :
      (outcome : Outcome (List (Destination R))) (ds : List (Destination R))
      → (not_none_created outcome ≡ done ds) ↔ ((outcome ≡ done ds) × (ds ≢ []))
  not_none_created_iff (raises e) ds = ((λ h. absurd (cc h)), λ h. absurd (cc (h.0)))
  not_none_created_iff (done []) ds = (
    (λ h. absurd (cc h)),
    λ h. absurd (h.1 (let same : ◌≡◌ {A = List (Destination R)} [] ds = cc (h.0) in sym same)),
  )
  not_none_created_iff (done (d ∷ ds')) ds = ((λ h. (h, λ e. absurd (cc (h, e)))), λ h. h.0)

  -- create_all() gives a list of destinations just when the list is not empty and holds, in order, one
  -- destination for each configuration, or for each enabled one when the others are skipped: the one
  -- that the builder registered for its type gives, enabled as its configuration says.
  pub create_all_iff :
      (skip_disabled : Bool) (configs : List DestinationConfig) (ds : List (Destination R))
      → (create_all builders skip_disabled configs ≡ done ds)
        ↔ (AreBuilt (wanted skip_disabled configs) ds × (ds ≢ []))
  unfolding create_all wanted AreBuilt
  create_all_iff skip [] [] = ((λ h. absurd (cc h)), λ h. absurd (h.1 refl))
  create_all_iff skip [] (d ∷ ds) = ((λ h. absurd (cc h)), λ h. absurd (h.0))
  create_all_iff skip (c ∷ configs) ds =
      let some_made = not_none_created_iff (create_loop builders skip (c ∷ configs)) ds in
      let each = create_loop_iff skip (c ∷ configs) ds in
      (
        (λ h. let (made, nonempty) = some_made.0 h in (each.0 made, nonempty)),
        λ h. some_made.1 (each.1 (h.0), h.1),
      )
