-- ===== src/Queue/Laws.antt =====
-- A queue of src/sp_rtk_base_relay/core is bounded and first in, first out.
use sp_rtk_base_relay.Prelude.{
  ap, refl, List, Option, ◌≤◌, ◌<◌, ◌≡◌, ◌⊎◌, inl, inr, true, false, none, some, [], ◌∷◌, ◌++◌,
  length-append, arith, Bool-cases,
}
use sp_rtk_base_relay.Queue.{present, Queue, is_full, put_nowait, get_nowait, get_items, qsize}

module _ {ℓ} {A : Type ℓ} where
  -- No more items than the maximum size, if there is one.
  abbrev pub IsBounded : Queue A → Type 0
  IsBounded q = 0 < q.maxsize → qsize q ≤ q.maxsize

  -- A put succeeds exactly when there is room, and appends; otherwise there was no room.
  pub put_cases :
      (q : Queue A) (a : A)
      → ((is_full q ≡ false)
          × (put_nowait q a ≡ some (record { items = q.items ++ a ∷ []; maxsize = q.maxsize })))
        ⊎ ((is_full q ≡ true) × (put_nowait q a ≡ none))
  unfolding put_nowait
  put_cases q a = elim (Bool-cases (is_full q)) [
    | inl full ↦ inr (full, rw full)
    | inr room ↦ inl (room, rw room)
  ]

  pub put-IsBounded :
      (q : Queue A) (a : A) {q' : Queue A} → IsBounded q → put_nowait q a ≡ some q' → IsBounded q'
  unfolding put_nowait is_full
  put-IsBounded q a h e = ground (arith, length-append q.items (a ∷ []), h)

  pub get-IsBounded :
      (q : Queue A) {a : A} {q' : Queue A}
      → IsBounded q
      → get_nowait q ≡ some (a, q')
      → IsBounded q'
  unfolding get_nowait get_items
  get-IsBounded q h e = ground (arith, h)

  pub present-append : (xs ys : List (Option A)) → present (xs ++ ys) ≡ present xs ++ present ys
  unfolding present
  present-append [] ys = refl
  present-append (none ∷ xs) ys = present-append xs ys
  present-append (some a ∷ xs) ys = ap (λ l. a ∷ l) (present-append xs ys)
