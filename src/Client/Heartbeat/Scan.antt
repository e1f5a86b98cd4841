-- ===== src/Client/Heartbeat/Scan.antt =====
-- How HeartbeatMonitor finds the heartbeats in what the server sends.
use sp_rtk_base_relay.Prelude.{
  ℕ, zero, suc, ◌+◌, ◌≤◌, ◌≡◌, refl, ◌∙◌, sym, ap, ◌⊎◌, inl, inr, true, false, none, some, [], ◌∷◌,
  ◌++◌, length, length-append, length-drop, drop, drop-append, arith, Bool-cases, Option-cases,
  ◌==◌, ◌&&◌,
}
use sp_rtk_base_relay.Rtcm.{Bytes}
use sp_rtk_base_relay.Client.Heartbeat.{
  HeartbeatMonitor, heartbeat, starts_with, after_heartbeat, scan_loop, scan_heartbeats,
  update_heartbeat,
}

starts_with-append :
    (prefix bytes more : Bytes)
    → length prefix ≤ length bytes
    → starts_with prefix (bytes ++ more) ≡ starts_with prefix bytes
unfolding starts_with
starts_with-append [] bytes more h = refl
starts_with-append (p ∷ prefix) [] more h = absurd (omega arith)
starts_with-append (p ∷ prefix) (b ∷ bytes) more h =
    ap (λ c. (p == b) && c) (starts_with-append prefix bytes more (omega arith))

starts_with-length :
    (prefix bytes : Bytes) → starts_with prefix bytes ≡ true → length prefix ≤ length bytes
unfolding starts_with
starts_with-length [] bytes h = omega arith
starts_with-length (p ∷ prefix) [] h = ground (arith, h)
starts_with-length (p ∷ prefix) (b ∷ bytes) h =
    omega (arith, starts_with-length prefix bytes (ground (arith, h)))

-- What is searched at a byte.
after_heartbeat_cases :
    (b : ℕ) (bytes : Bytes)
    → ((starts_with heartbeat (b ∷ bytes) ≡ true)
        × (after_heartbeat (b ∷ bytes) ≡ some (drop 4 (b ∷ bytes))))
      ⊎ ((starts_with heartbeat (b ∷ bytes) ≡ false)
          × (after_heartbeat (b ∷ bytes) ≡ after_heartbeat bytes))
unfolding after_heartbeat
after_heartbeat_cases b bytes = elim (Bool-cases (starts_with heartbeat (b ∷ bytes))) [
  | inl starts ↦ inl (starts, simp starts refl)
  | inr not_here ↦ inr (not_here, simp not_here refl)
]

after_heartbeat-length :
    (buffer rest : Bytes) → after_heartbeat buffer ≡ some rest → length rest + 4 ≤ length buffer
unfolding after_heartbeat
after_heartbeat-length [] rest h = ground (arith, h)
after_heartbeat-length (b ∷ buffer) rest h = elim (after_heartbeat_cases b buffer) [
  | inl (starts, e) ↦
      let same : drop 4 (b ∷ buffer) ≡ rest = cc (e, h) in
      omega (
        arith,
        ap length same,
        length-drop 4 (b ∷ buffer),
        starts_with-length heartbeat (b ∷ buffer) starts,
      )
  | inr (not_here, e) ↦ omega (arith, after_heartbeat-length buffer rest (sym e ∙ h))
]

-- The first heartbeat stays the first when more is appended.
after_heartbeat-append :
    (buffer more rest : Bytes)
    → after_heartbeat buffer ≡ some rest
    → after_heartbeat (buffer ++ more) ≡ some (rest ++ more)
unfolding after_heartbeat
after_heartbeat-append [] more rest h = ground (arith, h)
after_heartbeat-append (b ∷ buffer) more rest h = elim (after_heartbeat_cases b buffer) [
  | inl (starts, e) ↦
      let long = starts_with-length heartbeat (b ∷ buffer) starts in
      let same : drop 4 (b ∷ buffer) ≡ rest = cc (e, h) in
      simp (starts_with-append heartbeat (b ∷ buffer) more long, starts)
        (ap some (drop-append 4 (b ∷ buffer) more long ∙ ap (λ l. l ++ more) same))
  | inr (not_here, e) ↦
      let found = sym e ∙ h in
      let long : 4 ≤ length (b ∷ buffer) =
        omega (arith, after_heartbeat-length buffer rest found) in
      simp (starts_with-append heartbeat (b ∷ buffer) more long, not_here)
        (after_heartbeat-append buffer more rest found)
]

nothing_here : after_heartbeat [] ≡ none
unfolding after_heartbeat
nothing_here = refl

pub scan_loop_stop :
    (f now : ℕ) (buffer : Bytes) (m : HeartbeatMonitor)
    → after_heartbeat buffer ≡ none
    → scan_loop f now buffer m ≡ (buffer, m)
unfolding scan_loop
scan_loop_stop zero now buffer m e = refl
scan_loop_stop (suc f) now buffer m e = rw (e, scan_loop) refl

scan_loop_next :
    (f now : ℕ) (buffer rest : Bytes) (m : HeartbeatMonitor)
    → after_heartbeat buffer ≡ some rest
    → scan_loop (suc f) now buffer m ≡ scan_loop f now rest (update_heartbeat now m)
unfolding scan_loop
scan_loop_next f now buffer rest m e = rw (e, scan_loop) refl

-- The fuel of the loop only has to cover the buffer.
scan_loop_fuel :
    (f g now : ℕ) (buffer : Bytes) (m : HeartbeatMonitor)
    → length buffer ≤ f
    → length buffer ≤ g
    → (scan_loop f now buffer m ≡ scan_loop g now buffer m)
      × (after_heartbeat (scan_loop f now buffer m).0 ≡ none)
scan_loop_fuel f g now [] m hf hg =
    rw (scan_loop_stop f now [] m nothing_here, scan_loop_stop g now [] m nothing_here)
      (refl, nothing_here)
scan_loop_fuel f zero now (b ∷ buffer) m hf hg = absurd (omega arith)
scan_loop_fuel zero (suc g) now (b ∷ buffer) m hf hg = absurd (omega arith)
scan_loop_fuel (suc f) (suc g) now (b ∷ bytes) m hf hg =
    let buffer : Bytes = b ∷ bytes in
    elim (Option-cases (after_heartbeat buffer)) [
      | inl no_more ↦
          rw
            (
              scan_loop_stop (suc f) now buffer m no_more,
              scan_loop_stop (suc g) now buffer m no_more,
            )
            (refl, no_more)
      | inr (rest, e) ↦
          let shorter = after_heartbeat-length buffer rest e in
          rw (scan_loop_next f now buffer rest m e, scan_loop_next g now buffer rest m e)
            (scan_loop_fuel f g now rest (update_heartbeat now m) (omega (arith, shorter))
              (omega (arith, shorter)))
    ]

scan_loop-append :
    (f g now : ℕ) (buffer more : Bytes) (m : HeartbeatMonitor)
    → length buffer ≤ f
    → length (buffer ++ more) ≤ g
    → let (left, m') = scan_loop f now buffer m in
      scan_loop g now (buffer ++ more) m ≡ scan_heartbeats now (left ++ more) m'
unfolding scan_heartbeats
scan_loop-append f g now [] more m hf hg =
    rw (scan_loop_stop f now [] m nothing_here)
      (scan_loop_fuel g (length more) now more m hg (omega arith)).0
scan_loop-append f zero now (b ∷ buffer) more m hf hg = absurd (omega arith)
scan_loop-append zero (suc g) now (b ∷ buffer) more m hf hg = absurd (omega arith)
scan_loop-append (suc f) (suc g) now (b ∷ bytes) more m hf hg =
    let buffer : Bytes = b ∷ bytes in
    elim (Option-cases (after_heartbeat buffer)) [
      | inl no_more ↦
          rw (scan_loop_stop (suc f) now buffer m no_more)
            (scan_loop_fuel (suc g) (length (buffer ++ more)) now (buffer ++ more) m hg
              (omega arith)).0
      | inr (rest, e) ↦
          let shorter = after_heartbeat-length buffer rest e in
          rw
            (
              scan_loop_next f now buffer rest m e,
              scan_loop_next g now (buffer ++ more) (rest ++ more) m
                  (after_heartbeat-append buffer more rest e),
            )
            (scan_loop-append f g now rest more (update_heartbeat now m) (omega (arith, shorter))
              (omega (arith, shorter, length-append rest more, length-append buffer more)))
    ]

-- However what the server sends is split into reads: searching the first part and then what it left
-- with the second part finds the last heartbeat where searching all of it does, and leaves the same
-- buffer, which holds no heartbeat.
pub scan_heartbeats-append :
    (now : ℕ) (buffer more : Bytes) (m : HeartbeatMonitor)
    → let (left, m') = scan_heartbeats now buffer m in
      (scan_heartbeats now (buffer ++ more) m ≡ scan_heartbeats now (left ++ more) m')
      × (after_heartbeat left ≡ none)
unfolding scan_heartbeats
scan_heartbeats-append now buffer more m = (
  scan_loop-append (length buffer) (length (buffer ++ more)) now buffer more m (omega arith)
      (omega arith),
  (scan_loop_fuel (length buffer) (length buffer) now buffer m (omega arith) (omega arith)).1,
)
