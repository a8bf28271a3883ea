-- ===== src/Admission/Rate.antt =====
-- What the rate windows let through (src/runtime/mesh.ts, `acceptInboundRate`).
use jupyter_pair_ext.Base.{
  ◌-◌, ◌⊎◌, ℕ, ◌+◌, ◌*◌, ◌≤◌, String, ◌≡◌, refl, inl, inr, Bool, true, false, ◌&&◌, Option, none,
  some, List, [], ◌∷◌, arith, ltb, leb, Bool-cases, nat_eq, string_eq, all, get,
}
use jupyter_pair_ext.Admission.{
  Inbound, count_message, exceeds, accept_inbound_rate, max_inbound_bytes, max_inbound_messages,
  max_total_inbound_bytes, max_total_inbound_messages,
}

-- a frame that arrives
pub record Arrival : Type 0 where
  pub at : ℕ
  pub peer : String
  pub bytes : ℕ

-- the bytes of a frame that is accepted; a frame that is refused gives none
abbrev pub counted : Option String → ℕ → ℕ
counted none bytes = bytes
counted (some error) bytes = 0

-- The bytes of the frames that are accepted, among those that are refused: a refusal leaves the
-- state that the next frame meets.
unfoldable pub accepted_bytes : List Arrival → Inbound → ℕ
accepted_bytes [] s = 0
accepted_bytes (a ∷ arrivals) s =
    let (after, error) = accept_inbound_rate a.at a.peer a.bytes s in
    counted error a.bytes + accepted_bytes arrivals after

-- all within one second from `start` on
abbrev pub within_second : ℕ → List Arrival → Bool
within_second start arrivals =
    all (λ (a : Arrival). leb start a.at && ltb a.at (start + 1000)) arrivals

-- A frame is accepted within the global limit, or it is refused and counts in the global window
-- or leaves it as it is.
accept_inbound_rate-global :
    (now : ℕ) (peer : String) (bytes : ℕ) (s : Inbound)
    → let (after, error) = accept_inbound_rate now peer bytes s in
      let g = count_message now bytes (some s.global_window) in
      ((counted error bytes ≡ bytes)
        × (after.global_window ≡ g)
        × (g.bytes ≤ max_total_inbound_bytes))
      ⊎ ((counted error bytes ≡ 0) × (after.global_window ≡ s.global_window))
      ⊎ ((counted error bytes ≡ 0) × (after.global_window ≡ g))
unfolding accept_inbound_rate exceeds
accept_inbound_rate-global now peer bytes s =
    let w = count_message now bytes (get peer s.windows) in
    let g = count_message now bytes (some s.global_window) in
    elim (Bool-cases (exceeds max_inbound_bytes max_inbound_messages w)) [
      | inl t ↦ inr (inl (simp (t, accept_inbound_rate) (refl, refl)))
      | inr f ↦ elim (Bool-cases (exceeds max_total_inbound_bytes max_total_inbound_messages g)) [
        | inl t ↦ inr (inr (simp (f, t, accept_inbound_rate) (refl, refl)))
        | inr k ↦ inl (simp (f, k, accept_inbound_rate) (refl, refl, ground (arith, k)))
      ]
    ]

-- after the window was started within the second, it stays: what is accepted fits in its rest
same_window :
    (start : ℕ) (arrivals : List Arrival) (s : Inbound)
    → start ≤ s.global_window.started_at
    → within_second start arrivals ≡ true
    → accepted_bytes arrivals s ≤ max_total_inbound_bytes - s.global_window.bytes
unfolding count_message accepted_bytes
same_window start [] s b w = omega arith
same_window start (a ∷ arrivals) s b w =
    let (after, error) = accept_inbound_rate a.at a.peer a.bytes s in
    let within : within_second start arrivals ≡ true = ground (arith, w) in
    let running : leb (s.global_window.started_at + 1000) a.at ≡ false = ground (arith, w, b) in
    let g = count_message a.at a.bytes (some s.global_window) in
    let started : g.started_at ≡ s.global_window.started_at = rw running refl in
    let bytes : g.bytes ≡ s.global_window.bytes + a.bytes = rw running refl in
    elim (accept_inbound_rate-global a.at a.peer a.bytes s) [
      | inl (c, same, bound) ↦
          let later : start ≤ after.global_window.started_at = rw same omega (arith, started, b) in
          let rest : accepted_bytes arrivals after ≤ max_total_inbound_bytes - g.bytes =
            rw same at (same_window start arrivals after later within) in
          omega (arith, c, rest, bound, bytes)
      | inr (inl (c, same)) ↦
          let later : start ≤ after.global_window.started_at = rw same b in
          let rest : accepted_bytes arrivals after
              ≤ max_total_inbound_bytes - s.global_window.bytes =
            rw same at (same_window start arrivals after later within) in
          omega (arith, c, rest)
      | inr (inr (c, same)) ↦
          let later : start ≤ after.global_window.started_at = rw same omega (arith, started, b) in
          let rest : accepted_bytes arrivals after ≤ max_total_inbound_bytes - g.bytes =
            rw same at (same_window start arrivals after later within) in
          omega (arith, c, rest, bytes)
    ]

-- as long as the window has not started again, it has its rest and one more window to give
second_bounded :
    (start : ℕ) (arrivals : List Arrival) (s : Inbound)
    → within_second start arrivals ≡ true
    → accepted_bytes arrivals s
      ≤ max_total_inbound_bytes + (max_total_inbound_bytes - s.global_window.bytes)
unfolding count_message accepted_bytes
second_bounded start [] s w = omega arith
second_bounded start (a ∷ arrivals) s w =
    let (after, error) = accept_inbound_rate a.at a.peer a.bytes s in
    let within : within_second start arrivals ≡ true = ground (arith, w) in
    let late : start ≤ a.at = ground (arith, w) in
    let g = count_message a.at a.bytes (some s.global_window) in
    let next = second_bounded start arrivals after within in
    elim (accept_inbound_rate-global a.at a.peer a.bytes s) [
      | inr (inl (c, same)) ↦
          let rest : accepted_bytes arrivals after
              ≤ max_total_inbound_bytes + (max_total_inbound_bytes - s.global_window.bytes) =
            rw same at next in
          omega (arith, c, rest)
      | inl (c, same, bound) ↦ elim (Bool-cases (leb (s.global_window.started_at + 1000) a.at)) [
        | inl t ↦
            let started : g.started_at ≡ a.at = rw t refl in
            let bytes : g.bytes ≡ a.bytes = rw t refl in
            let later : start ≤ after.global_window.started_at =
              rw same omega (arith, started, late) in
            let rest : accepted_bytes arrivals after ≤ max_total_inbound_bytes - g.bytes =
              rw same at (same_window start arrivals after later within) in
            omega (arith, c, rest, bound, bytes)
        | inr f ↦
            let bytes : g.bytes ≡ s.global_window.bytes + a.bytes = rw f refl in
            let rest : accepted_bytes arrivals after
                ≤ max_total_inbound_bytes + (max_total_inbound_bytes - g.bytes) =
              rw same at next in
            omega (arith, c, rest, bound, bytes)
      ]
      | inr (inr (c, same)) ↦ elim (Bool-cases (leb (s.global_window.started_at + 1000) a.at)) [
        | inl t ↦
            let started : g.started_at ≡ a.at = rw t refl in
            let later : start ≤ after.global_window.started_at =
              rw same omega (arith, started, late) in
            let rest : accepted_bytes arrivals after ≤ max_total_inbound_bytes - g.bytes =
              rw same at (same_window start arrivals after later within) in
            omega (arith, c, rest)
        | inr f ↦
            let bytes : g.bytes ≡ s.global_window.bytes + a.bytes = rw f refl in
            let rest : accepted_bytes arrivals after
                ≤ max_total_inbound_bytes + (max_total_inbound_bytes - g.bytes) =
              rw same at next in
            omega (arith, c, rest, bytes)
      ]
    ]

-- Of the frames of all peers that arrive within any one second, in any state and among frames
-- that are refused, the bytes of those that are accepted add up to at most twice the limit: a
-- window may start again once within the second.
pub accepted_bytes-bounded :
    (start : ℕ) (arrivals : List Arrival) (s : Inbound)
    → within_second start arrivals ≡ true
    → accepted_bytes arrivals s ≤ 2 * max_total_inbound_bytes
accepted_bytes-bounded start arrivals s w = omega (arith, second_bounded start arrivals s w)
