-- ===== src/Hub/Feed/Rounds.antt =====
-- What the rounds of the two threads of src/sp_rtk_base_relay/core/broadcast_hub.py do to the input
-- queue.
use sp_rtk_base_relay.Prelude.{
  ℕ, ◌≡◌, refl, ◌∙◌, sym, ap, ap₂, subst, inl, inr, String, Bool, Option, none, some, List, [], ◌∷◌,
  ◌++◌, append-nil, by_branches,
}
use sp_rtk_base_relay.Rtcm.{Bytes}
use sp_rtk_base_relay.Queue.{Queue, get_nowait, get_items, present}
use sp_rtk_base_relay.Queue.Laws.{IsBounded, put_cases, put-IsBounded, present-append}
use sp_rtk_base_relay.Hub.Input.{InputSource}
use sp_rtk_base_relay.Hub.Broadcast.Quiet.{quiet}
use sp_rtk_base_relay.Hub.Feed.{
  Feed, Reading, no_data, data_read, read_error, emit_all, connect_again, note_typed, after_read,
  input_round,
}

abbrev pub and_chunk : Option Bytes → List Bytes
and_chunk none = []
and_chunk (some bytes) = bytes ∷ []

first_present :
    (first : Option Bytes) (rest : List (Option Bytes))
    → present (first ∷ rest) ≡ and_chunk first ++ present rest
unfolding present
first_present none rest = refl
first_present (some bytes) rest = refl

pub get-present :
    (q : Queue (Option Bytes)) (item : Option Bytes) (q' : Queue (Option Bytes))
    → get_nowait q ≡ some (item, q')
    → present q.items ≡ and_chunk item ++ present q'.items
unfolding get_nowait get_items
get-present q item q' h = from_items q.items q.maxsize item q' h
  where
    from_items :
        (items : List (Option Bytes)) (maxsize : ℕ) (item : Option Bytes)
        (q' : Queue (Option Bytes))
        → get_items items maxsize ≡ some (item, q')
        → present items ≡ and_chunk item ++ present q'.items
    from_items [] maxsize item q' h = absurd (cc h)
    from_items (first ∷ rest) maxsize item q' h =
        let is_first : first ≡ item = cc h in
        let is_rest : record { items = rest; maxsize = maxsize } ≡ q' = cc h in
        first_present first rest
        ∙ ap₂ (λ (o : Option Bytes) (q : Queue (Option Bytes)). and_chunk o ++ present q.items)
            is_first is_rest

-- What a round of the input thread does to the hub and the queue.
abbrev pub IsPut : {R : Type 0} {I : Type 0} → Feed R I → Feed R I × Option Bytes → Type 0
IsPut f x =
    (quiet x.0.hub ≡ quiet f.hub)
    × (present x.0.input_queue.items ≡ present f.input_queue.items ++ and_chunk x.1)
    × (IsBounded f.input_queue → IsBounded x.0.input_queue)

module _ {R : Type 0} {I : Type 0} (source : InputSource I) where
  nothing-IsPut :
      (f f' : Feed R I)
      → quiet f'.hub ≡ quiet f.hub
      → f'.input_queue ≡ f.input_queue
      → IsPut f (f', none)
  nothing-IsPut f f' same_hub same_queue = (
    same_hub,
    ap (λ (q : Queue (Option Bytes)). present q.items) same_queue
        ∙ sym (append-nil (present f.input_queue.items)),
    subst IsBounded (sym same_queue),
  )

  connect_again_kept :
      (otherwise : String) (answers : List Bool) (f : Feed R I)
      → let f' = connect_again source otherwise answers f in
        (quiet f'.hub ≡ quiet f.hub) × (f'.input_queue ≡ f.input_queue)
  unfolding connect_again emit_all
  connect_again_kept otherwise answers f =
      by_branches
        (λ (f' : Feed R I). (quiet f'.hub ≡ quiet f.hub) × (f'.input_queue ≡ f.input_queue))
        (source.is_connected f.side.input) (λ on. (refl, refl)) (λ off. (refl, refl))

  after_read-IsPut :
      (otherwise : String) (reading : Reading) (f f' : Feed R I)
      → quiet f'.hub ≡ quiet f.hub
      → f'.input_queue ≡ f.input_queue
      → IsPut f (after_read source otherwise reading f')
  unfolding after_read present
  after_read-IsPut otherwise no_data f f' same_hub same_queue =
      nothing-IsPut f f' same_hub same_queue
  after_read-IsPut otherwise (data_read bytes) f f' same_hub same_queue =
      elim (put_cases f'.input_queue (some bytes)) [
        | inr (full, refusal) ↦ rw (refusal, after_read) (nothing-IsPut f f' same_hub same_queue)
        | inl (room, put) ↦
            rw (put, after_read)
              (
                same_hub,
                present-append f'.input_queue.items (some bytes ∷ [])
                    ∙ ap (λ (q : Queue (Option Bytes)). present q.items ++ bytes ∷ []) same_queue,
                (λ bound.
                    put-IsBounded f'.input_queue (some bytes)
                      (subst IsBounded (sym same_queue) bound) put),
              )
      ]
  after_read-IsPut otherwise (read_error typed text) f f' same_hub same_queue =
      let noted = note_typed source otherwise typed text f'.side in
      nothing-IsPut f (record f' { side = record noted { input = source.disconnect noted.input } })
        same_hub same_queue

  pub input_round-IsPut :
      (read_data : I → Reading × I) (otherwise : String) (answers : List Bool) (f : Feed R I)
      → IsPut f (input_round source read_data otherwise answers f)
  unfolding input_round
  input_round-IsPut read_data otherwise answers f =
      let f' = connect_again source otherwise answers f in
      let (same_hub, same_queue) = connect_again_kept otherwise answers f in
      by_branches (IsPut f) f.hub.running
        (λ running.
          by_branches (IsPut f) (source.is_connected f'.side.input)
            (λ on. after_read-IsPut otherwise _ f _ same_hub same_queue)
            (λ off. nothing-IsPut f f' same_hub same_queue))
        (λ stopped. nothing-IsPut f f refl refl)
