-- ===== src/Config/Overrides/Nested.antt =====
-- What a setting of a nested value in src/sp_rtk_base_relay/config.py changes.
use sp_rtk_base_relay.Prelude.{
  ◌≡◌, ◌≢◌, refl, ◌∙◌, sym, ap, inl, inr, String, Option, none, some, List, [], ◌∷◌, arith,
  Bool-cases, Option-cases, if◌then◌else◌,
}
use sp_rtk_base_relay.Prelude.Text.{same_text, same_text_iff}
use sp_rtk_base_relay.Config.Overrides.{
  Value, null, boolean, integer, floating, text, sequence, dictionary, Entries, empty, entry,
  get_entry, put_entry, TextReading, convert_env_value, section_of, set_nested,
}

get_entry-put :
    (k j : String) (v : Value) (entries : Entries)
    → get_entry j (put_entry k v entries) ≡ (if same_text k j then some v else get_entry j entries)
unfolding get_entry put_entry
get_entry-put k j v empty = refl
get_entry-put k j v (entry i w entries) =
    ground
      (arith, same_text_iff k j, same_text_iff i k, same_text_iff i j, get_entry-put k j v entries)

-- settings[k1][k2]...[key]
pub get_path : Entries → List String → String → Option Value
get_path settings [] key = get_entry key settings
get_path settings (k ∷ path) key = elim (get_entry k settings) [
  | some (dictionary entries) ↦ get_path entries path key
  | _ ↦ none
]

under : Option Value → List String → String → Option Value
under (some (dictionary entries)) path key = get_path entries path key
under _ path key = none

path_step :
    (settings : Entries) (k : String) (path : List String) (key : String) (o : Option Value)
    → get_entry k settings ≡ o
    → get_path settings (k ∷ path) key ≡ under o path key
unfolding get_path under
path_step settings k path key none e = rw (e, get_path) refl
path_step settings k path key (some null) e = rw (e, get_path) refl
path_step settings k path key (some (boolean b)) e = rw (e, get_path) refl
path_step settings k path key (some (integer z)) e = rw (e, get_path) refl
path_step settings k path key (some (floating x)) e = rw (e, get_path) refl
path_step settings k path key (some (text t)) e = rw (e, get_path) refl
path_step settings k path key (some (sequence vs)) e = rw (e, get_path) refl
path_step settings k path key (some (dictionary entries)) e = rw (e, get_path) refl

get_path_empty : (path : List String) (key : String) → get_path empty path key ≡ none
unfolding get_path get_entry
get_path_empty [] key = refl
get_path_empty (k ∷ path) key = refl

-- What is read under a section is what is read in its dictionary.
under-section :
    (o : Option Value) (current : Entries) (path : List String) (key : String)
    → section_of o ≡ some current
    → under o path key ≡ get_path current path key
unfolding section_of under
under-section none current path key e =
    sym (get_path_empty path key) ∙ ap (λ c. get_path c path key) (cc e)
under-section (some (dictionary entries)) current path key e = ap (λ c. get_path c path key) (cc e)
under-section (some null) current path key e = absurd (cc e)
under-section (some (boolean b)) current path key e = absurd (cc e)
under-section (some (integer z)) current path key e = absurd (cc e)
under-section (some (floating x)) current path key e = absurd (cc e)
under-section (some (text t)) current path key e = absurd (cc e)
under-section (some (sequence vs)) current path key e = absurd (cc e)

get_put_same :
    (k : String) (v : Value) (entries : Entries) → get_entry k (put_entry k v entries) ≡ some v
get_put_same k v entries =
    get_entry-put k k v entries
    ∙ ap (λ b. if b then some v else get_entry k entries) ((same_text_iff k k).1 refl)

get_put_other :
    (k j : String) (v : Value) (entries : Entries)
    → j ≢ k
    → get_entry j (put_entry k v entries) ≡ get_entry j entries
get_put_other k j v entries other = elim (Bool-cases (same_text k j)) [
  | inl same ↦ absurd (other (sym ((same_text_iff k j).0 same)))
  | inr different ↦
      get_entry-put k j v entries ∙ ap (λ b. if b then some v else get_entry j entries) different
]

module _ (reading : TextReading) (settings : Entries) (k : String) (path : List String)
    (key value : String) where
  no_section_step :
      section_of (get_entry k settings) ≡ none
      → set_nested reading settings (k ∷ path) key value ≡ none
  unfolding set_nested
  no_section_step e = rw (e, set_nested) refl

  refused_step :
      (current : Entries)
      → section_of (get_entry k settings) ≡ some current
      → set_nested reading current path key value ≡ none
      → set_nested reading settings (k ∷ path) key value ≡ none
  unfolding set_nested
  refused_step current e e' = rw (e, set_nested, e') refl

  inner_step :
      (current current' : Entries)
      → section_of (get_entry k settings) ≡ some current
      → set_nested reading current path key value ≡ some current'
      → set_nested reading settings (k ∷ path) key value
        ≡ some (put_entry k (dictionary current') settings)
  unfolding set_nested
  inner_step current current' e e' = rw (e, set_nested, e') refl

module _ (reading : TextReading) where
  set_step :
      (settings settings' : Entries) (k : String) (path : List String) (key value : String)
      → set_nested reading settings (k ∷ path) key value ≡ some settings'
      → (current : Entries) × (current' : Entries) × (section_of (get_entry k settings)
          ≡ some current)
        × (set_nested reading current path key value ≡ some current')
        × (settings' ≡ put_entry k (dictionary current') settings)
  set_step settings settings' k path key value h =
      elim (Option-cases (section_of (get_entry k settings))) [
        | inl no_section ↦
            absurd (cc (h, no_section_step reading settings k path key value no_section))
        | inr (current, e) ↦ elim (Option-cases (set_nested reading current path key value)) [
          | inl refused ↦
              absurd (cc (h, refused_step reading settings k path key value current e refused))
          | inr (current', e') ↦ (
            current,
            current',
            e,
            e',
            cc (h, inner_step reading settings k path key value current current' e e'),
          )
        ]
      ]

  -- A setting that succeeds is read back as converted, and at the same path every other key keeps
  -- what it had, or still has nothing.
  pub set_nested-get :
      (settings settings' : Entries) (path : List String) (key value : String)
      → set_nested reading settings path key value ≡ some settings'
      → (get_path settings' path key ≡ some (convert_env_value reading key value))
        × ((j : String) → j ≢ key → get_path settings' path j ≡ get_path settings path j)
  unfolding set_nested get_path under
  set_nested-get settings settings' [] key value h =
      let same : put_entry key (convert_env_value reading key value) settings ≡ settings' = cc h in
      (
        ap (get_entry key) (sym same)
            ∙ get_put_same key (convert_env_value reading key value) settings,
        λ j other.
            ap (get_entry j) (sym same)
            ∙ get_put_other key j (convert_env_value reading key value) settings other,
      )
  set_nested-get settings settings' (k ∷ path) key value h =
      let (current, current', e, e', whole) = set_step settings settings' k path key value h in
      let (set, kept) = set_nested-get current current' path key value e' in
      let found : get_entry k settings' ≡ some (dictionary current') =
        ap (get_entry k) whole ∙ get_put_same k (dictionary current') settings in
      (
        path_step settings' k path key (some (dictionary current')) found ∙ set,
        λ j other.
            path_step settings' k path j (some (dictionary current')) found
            ∙ kept j other
            ∙ sym (under-section (get_entry k settings) current path j e)
            ∙ sym (path_step settings k path j (get_entry k settings) refl),
      )
