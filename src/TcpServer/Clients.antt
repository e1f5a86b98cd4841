-- ===== src/TcpServer/Clients.antt =====
-- The set of clients of the TCP server destination of src/sp_rtk_base_relay/core/destinations: who is
-- left when the failed clients are discarded.
use sp_rtk_base_relay.Prelude.{
  ℕ, ◌≤◌, ◌≡◌, refl, ◌∙◌, ap, inl, inr, Bool, false, List, [], ◌∷◌, length, arith, Bool-cases, ◌==◌,
  if◌then◌else◌,
}
use sp_rtk_base_relay.TcpServer.{has_client, discard, failed_of, discard_all}

-- No client twice.
unfoldable pub IsDistinct : List ℕ → Type 0
IsDistinct [] = Unit
IsDistinct (k ∷ keys) = (has_client k keys ≡ false) × IsDistinct keys

-- The clients whose write succeeds.
unfoldable pub served : (ℕ → Bool) → List ℕ → List ℕ
served ok [] = []
served ok (k ∷ keys) = let rest = served ok keys in if ok k then k ∷ rest else rest

has_client-discard :
    (j key : ℕ) (keys : List ℕ)
    → has_client j keys ≡ false
    → has_client j (discard key keys) ≡ false
unfolding has_client discard
has_client-discard j key [] h = refl
has_client-discard j key (k ∷ keys) h = ground (arith, h, has_client-discard j key keys)

pub discard-IsDistinct : (key : ℕ) (keys : List ℕ) → IsDistinct keys → IsDistinct (discard key keys)
unfolding IsDistinct discard
discard-IsDistinct key [] h = tt
discard-IsDistinct key (k ∷ keys) h = elim (Bool-cases (k == key)) [
  | inl same ↦ rw same (discard-IsDistinct key keys h.1)
  | inr other ↦ rw other (has_client-discard k key keys h.0, discard-IsDistinct key keys h.1)
]

pub length-discard : (key : ℕ) (keys : List ℕ) → length (discard key keys) ≤ length keys
unfolding discard
length-discard key [] = omega arith
length-discard key (k ∷ keys) = ground (arith, length-discard key keys)

discard_absent : (key : ℕ) (keys : List ℕ) → has_client key keys ≡ false → discard key keys ≡ keys
unfolding discard has_client
discard_absent key [] h = refl
discard_absent key (k ∷ keys) h = ground (arith, h, discard_absent key keys)

failed_of_absent :
    (ok : ℕ → Bool) (key : ℕ) (keys : List ℕ)
    → has_client key keys ≡ false
    → has_client key (failed_of ok keys) ≡ false
unfolding failed_of has_client
failed_of_absent ok key [] h = refl
failed_of_absent ok key (k ∷ keys) h = ground (arith, h, failed_of_absent ok key keys)

discard_all_head :
    (key : ℕ) (failed keys : List ℕ)
    → has_client key failed ≡ false
    → discard_all failed (key ∷ keys) ≡ key ∷ discard_all failed keys
unfolding discard_all discard has_client
discard_all_head key [] keys h = refl
discard_all_head key (f ∷ failed) keys h =
    let other : (key == f) ≡ false = ground (arith, h) in
    let rest : has_client key failed ≡ false = ground (arith, h) in
    rw other (discard_all_head key failed (discard f keys) rest)

discard_head : (key : ℕ) (keys : List ℕ) → discard key (key ∷ keys) ≡ discard key keys
unfolding discard
discard_head key keys = ground arith

-- Without its failed clients a set of clients is the clients that were served.
pub discard_all-failed_of :
    (ok : ℕ → Bool) (keys : List ℕ)
    → IsDistinct keys
    → discard_all (failed_of ok keys) keys ≡ served ok keys
unfolding failed_of served discard_all IsDistinct
discard_all-failed_of ok [] h = refl
discard_all-failed_of ok (k ∷ keys) h = elim (Bool-cases (ok k)) [
  | inl good ↦ rw good (
      discard_all_head k (failed_of ok keys) keys (failed_of_absent ok k keys h.0)
      ∙ ap (λ r. k ∷ r) (discard_all-failed_of ok keys h.1))
  | inr bad ↦ rw bad (
      ap (discard_all (failed_of ok keys)) (discard_head k keys ∙ discard_absent k keys h.0)
      ∙ discard_all-failed_of ok keys h.1)
]

has_client-served :
    (ok : ℕ → Bool) (key : ℕ) (keys : List ℕ)
    → has_client key keys ≡ false
    → has_client key (served ok keys) ≡ false
unfolding served has_client
has_client-served ok key [] h = refl
has_client-served ok key (k ∷ keys) h = ground (arith, h, has_client-served ok key keys)

pub served-IsDistinct :
    (ok : ℕ → Bool) (keys : List ℕ) → IsDistinct keys → IsDistinct (served ok keys)
unfolding served IsDistinct
served-IsDistinct ok [] h = tt
served-IsDistinct ok (k ∷ keys) h = elim (Bool-cases (ok k)) [
  | inl good ↦ rw good (has_client-served ok k keys h.0, served-IsDistinct ok keys h.1)
  | inr bad ↦ rw bad (served-IsDistinct ok keys h.1)
]

pub length-served : (ok : ℕ → Bool) (keys : List ℕ) → length (served ok keys) ≤ length keys
unfolding served
length-served ok [] = omega arith
length-served ok (k ∷ keys) = ground (arith, length-served ok keys)
