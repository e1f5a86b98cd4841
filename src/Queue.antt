-- ===== src/Queue.antt =====
-- Python's queue.Queue, as src/sp_rtk_base_relay/core uses it: put_nowait, get_nowait and qsize.
-- A maximum size of 0 means no limit. `none` stands for queue.Full and queue.Empty.
pub mod Laws
use sp_rtk_base_relay.Prelude.{
  ℕ, zero, suc, ◌+◌, Bool, true, false, not, ◌&&◌, Option, none, some, List, [], ◌∷◌, ◌++◌, length,
  leb, ltb, if◌then◌else◌,
}

-- Oldest first.
pub record Queue {ℓ} (A : Type ℓ) : Type ℓ where
  pub items : List A
  pub maxsize : ℕ

module _ {ℓ} {A : Type ℓ} where
  unfoldable pub new : ℕ → Queue A
  new maxsize = record { items = []; maxsize = maxsize }

  abbrev pub qsize : Queue A → ℕ
  qsize q = length q.items

  unfoldable pub is_full : Queue A → Bool
  is_full q = ltb 0 q.maxsize && leb q.maxsize (qsize q)

  unfoldable pub put_nowait : Queue A → A → Option (Queue A)
  unfolding is_full
  put_nowait q a = if is_full q then none else some (record q { items = q.items ++ a ∷ [] })

  unfoldable pub get_items : List A → ℕ → Option (A × Queue A)
  get_items [] maxsize = none
  get_items (a ∷ rest) maxsize = some (a, record { items = rest; maxsize = maxsize })

  unfoldable pub get_nowait : Queue A → Option (A × Queue A)
  unfolding get_items
  get_nowait q = get_items q.items q.maxsize

  -- The items of a queue of optional items that are there.
  unfoldable pub present : List (Option A) → List A
  present [] = []
  present (none ∷ items) = present items
  present (some a ∷ items) = a ∷ present items
