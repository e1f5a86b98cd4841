-- ===== src/TcpServer/Receipts.antt =====
-- The TCP server destination of src/sp_rtk_base_relay/core/destinations through clients that come and
-- go and the frames it is given, and what each client receives, described apart from the code.
use sp_rtk_base_relay.Prelude.{
  ℕ, suc, ◌+◌, ◌*◌, ◌≤◌, ◌≡◌, refl, ◌∙◌, sym, ap, subst, inl, inr, Bool, true, List, [], ◌∷◌, ◌++◌,
  map, length, length-append, arith, Bool-cases, leb, ltb,
}
use sp_rtk_base_relay.Rtcm.{Bytes}
use sp_rtk_base_relay.TcpServer.{
  TcpServer, has_client, join, leave, Move, joins, leaves, move_all, count_sent,
  broadcast_to_clients, broadcast_data,
}
use sp_rtk_base_relay.TcpServer.Clients.{
  IsDistinct, served, discard-IsDistinct, length-discard, discard_all-failed_of, served-IsDistinct,
  length-served,
}

pub data Event : Type 0 where
  moves : Move → Event
  sends : ℕ → (ℕ → Bool) → Bytes → Event

unfoldable pub step : Event → TcpServer → TcpServer
unfolding move_all broadcast_data
step (moves move) s = move_all (move ∷ []) s
step (sends now ok bytes) s = broadcast_data now ok [] bytes s

unfoldable pub run : List Event → TcpServer → TcpServer
unfolding step
run [] s = s
run (event ∷ events) s = run events (step event s)

-- What the clients receive at an event: each that is served gets the bytes of the frame.
unfoldable pub received : Event → TcpServer → List Bytes
unfolding served
received (moves move) s = []
received (sends now ok bytes) s = map (λ k. bytes) (served ok s.clients)

unfoldable pub receipts : List Event → TcpServer → List Bytes
unfolding received
receipts [] s = []
receipts (event ∷ events) s = received event s ++ receipts events (step event s)

unfoldable pub total_length : List Bytes → ℕ
total_length [] = 0
total_length (bytes ∷ received) = length bytes + total_length received

-- No client is kept twice, and no more clients than allowed.
unfoldable pub IsServing : TcpServer → Type 0
IsServing s = IsDistinct s.clients × (length s.clients ≤ s.max_clients)

join-IsServing : (key : ℕ) (s : TcpServer) → IsServing s → IsServing (join key s).0
unfolding IsServing join IsDistinct
join-IsServing key s h = elim (Bool-cases (leb s.max_clients (length s.clients))) [
  | inl full ↦ rw full h
  | inr free ↦ elim (Bool-cases (has_client key s.clients)) [
    | inl here ↦ rw (free, here) h
    | inr new ↦ rw (free, new) ((new, h.0), ground (arith, free))
  ]
]

leave-IsServing : (key : ℕ) (s : TcpServer) → IsServing s → IsServing (leave key s)
unfolding IsServing leave
leave-IsServing key s h =
    (discard-IsDistinct key s.clients h.0, omega (arith, length-discard key s.clients, h.1))

-- The counts of a server that has sent `bytes` to `served_clients`, its clients from then on.
IsCounted : Bytes → List ℕ → TcpServer → TcpServer → Type 0
IsCounted bytes served_clients s after =
    (after.clients ≡ served_clients)
    × (after.max_clients ≡ s.max_clients)
    × (after.messages_sent ≡ s.messages_sent + length served_clients)
    × (after.bytes_sent ≡ s.bytes_sent + length bytes * length served_clients)

ltb-suc : (n : ℕ) → ltb 0 (suc n) ≡ true
ltb-suc n = ground arith

count_sent-IsCounted :
    (now : ℕ) (bytes : Bytes) (s : TcpServer) (clients : List ℕ)
    → IsCounted bytes clients s (count_sent now bytes (record s { clients = clients }))
unfolding IsCounted count_sent
count_sent-IsCounted now bytes s [] = (refl, refl, omega arith, omega arith)
count_sent-IsCounted now bytes s (k ∷ keys) = rw (ltb-suc (length keys)) (refl, refl, refl, refl)

broadcast_data-IsCounted :
    (now : ℕ) (ok : ℕ → Bool) (bytes : Bytes) (s : TcpServer) (clients : List ℕ)
    → IsDistinct clients
    → IsCounted bytes
        (served ok clients)
        s
        (broadcast_data now ok [] bytes (record s { clients = clients }))
unfolding broadcast_data broadcast_to_clients move_all IsCounted served
broadcast_data-IsCounted now ok bytes s [] h = (refl, refl, omega arith, omega arith)
broadcast_data-IsCounted now ok bytes s (k ∷ keys) h = rw (ltb-suc (length keys)) (
    subst
      (λ c.
        IsCounted bytes (served ok (k ∷ keys)) s (count_sent now bytes (record s { clients = c })))
      (sym (discard_all-failed_of ok (k ∷ keys) h))
      (count_sent-IsCounted now bytes s (served ok (k ∷ keys))))

join_counts_nothing :
    (key : ℕ) (s : TcpServer)
    → ((join key s).0.messages_sent ≡ s.messages_sent) × ((join key s).0.bytes_sent ≡ s.bytes_sent)
unfolding join
join_counts_nothing key s = elim (Bool-cases (leb s.max_clients (length s.clients))) [
  | inl full ↦ rw full (refl, refl)
  | inr free ↦ elim (Bool-cases (has_client key s.clients)) [
    | inl here ↦ rw (free, here) (refl, refl)
    | inr new ↦ rw (free, new) (refl, refl)
  ]
]

length-received :
    (bytes : Bytes) (keys : List ℕ) → length (map (λ (k : ℕ). bytes) keys) ≡ length keys
length-received bytes [] = refl
length-received bytes (k ∷ keys) = ap suc (length-received bytes keys)

total_length-received :
    (bytes : Bytes) (keys : List ℕ)
    → total_length (map (λ (k : ℕ). bytes) keys) ≡ length bytes * length keys
unfolding total_length
total_length-received bytes [] = omega arith
total_length-received bytes (k ∷ keys) = ground (arith, total_length-received bytes keys)

total_length-append :
    (received more : List Bytes)
    → total_length (received ++ more) ≡ total_length received + total_length more
unfolding total_length
total_length-append [] more = omega arith
total_length-append (bytes ∷ received) more = omega (arith, total_length-append received more)

send-IsServing :
    (now : ℕ) (ok : ℕ → Bool) (bytes : Bytes) (s : TcpServer)
    → IsServing s
    → IsServing (broadcast_data now ok [] bytes s)
unfolding IsServing IsCounted
send-IsServing now ok bytes s h =
    let counted = broadcast_data-IsCounted now ok bytes s s.clients h.0 in
    (
      subst IsDistinct (sym counted.0) (served-IsDistinct ok s.clients h.0),
      omega (arith, ap length counted.0, counted.1, length-served ok s.clients, h.1),
    )

step-IsServing :
    (event : Event) (s : TcpServer)
    → IsServing s
    → IsServing (step event s)
      × ((step event s).messages_sent ≡ s.messages_sent + length (received event s))
      × ((step event s).bytes_sent ≡ s.bytes_sent + total_length (received event s))
unfolding step move_all received total_length leave IsServing IsCounted
step-IsServing (moves (joins key)) s h =
    let nothing = join_counts_nothing key s in
    (join-IsServing key s h, omega (arith, nothing.0), omega (arith, nothing.1))
step-IsServing (moves (leaves key)) s h = (leave-IsServing key s h, omega arith, omega arith)
step-IsServing (sends now ok bytes) s h =
    let counted = broadcast_data-IsCounted now ok bytes s s.clients h.0 in
    (
      send-IsServing now ok bytes s h,
      counted.2 ∙ ap (λ n. s.messages_sent + n) (sym (length-received bytes (served ok s.clients))),
      counted.3
          ∙ ap (λ n. s.bytes_sent + n) (sym (total_length-received bytes (served ok s.clients))),
    )

-- Through any clients that connect and leave, and any frames sent while none does, no client is kept
-- twice, no more clients are kept than allowed, and the messages and bytes counted grow by exactly
-- what the clients received.
pub run-IsServing :
    (events : List Event) (s : TcpServer)
    → IsServing s
    → IsServing (run events s)
      × ((run events s).messages_sent ≡ s.messages_sent + length (receipts events s))
      × ((run events s).bytes_sent ≡ s.bytes_sent + total_length (receipts events s))
unfolding run receipts total_length
run-IsServing [] s h = (h, omega arith, omega arith)
run-IsServing (event ∷ events) s h =
    let now = step-IsServing event s h in
    let later = run-IsServing events (step event s) now.0 in
    (
      later.0,
      omega (
        arith,
        now.1,
        later.1,
        length-append (received event s) (receipts events (step event s)),
      ),
      omega (
        arith,
        now.2,
        later.2,
        total_length-append (received event s) (receipts events (step event s)),
      ),
    )
