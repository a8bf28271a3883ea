-- ===== src/Coordinator/Laws.antt =====
-- When a coordinator accepts a new host, and when it gives the session up.
use jupyter_pair_ext.Base.{
  ℕ, ◌+◌, ◌≤◌, String, ◌≡◌, refl, sym, ◌∙◌, ◌≢◌, ◌↔◌, ◌⊎◌, inl, inr, Bool, true, false, not, ◌&&◌,
  Option, none, some, List, [], ◌∷◌, arith, eq_iff, if◌then◌else◌, Bool-cases, Option-cases, ◌==◌,
  nat_eq, string_eq, ok, err, get,
}
use jupyter_pair_ext.Base.Js.{Value}
use jupyter_pair_ext.Base.Int.{ℤ}
use jupyter_pair_ext.Clock.{HostClock, normalize_host_clock}
use jupyter_pair_ext.Clock.Laws.{normalize_host_clock-IsValid, compare_clock-later}
use jupyter_pair_ext.Coordinator.{
  ConnectionState, connected, recovering, disconnected, PeerRuntime, Coordinator, Event,
  host_changed, host_lost, manual, remote, is_current_host, is_recovering, hard_loss, evaluate,
  manual_transfer, accept_clock, apply_announcement, upsert_peer, mark_heartbeat, mark_disconnected,
  is_online, not_host, target_offline,
}

module _ (locale_compare : String → String → ℤ) where
  -- An announcement from the host that the participant trusts, well formed, of the same session
  -- and naming the next host epoch.
  pub record Accepts (c : Coordinator) (incoming : Value) (announcer : String) : Type 0 where
    pub clock : HostClock
    pub normal : normalize_host_clock incoming (some c.clock.session_epoch) ≡ some clock
    pub from_host : announcer ≡ c.clock.host_id
    pub next_epoch : clock.host_epoch ≡ c.clock.host_epoch + 1

  abbrev pub Outcome : Coordinator → Value → String → Type 0
  Outcome c incoming announcer =
      let r = apply_announcement locale_compare c incoming announcer in
      ((a : Accepts c incoming announcer) × (r
          ≡ (record c { clock = a.clock }, true, host_changed a.clock remote ∷ [])))
      ⊎ ((¬ Accepts c incoming announcer) × (r ≡ (c, false, [])))

  accept_clock-eq :
      (c : Coordinator) (n : HostClock) (announcer : String)
      → n.session_epoch ≡ c.clock.session_epoch
      → accept_clock locale_compare c (some n) announcer ≡ (
          if announcer == c.clock.host_id && n.host_epoch == c.clock.host_epoch + 1
          then (record c { clock = n }, true, host_changed n remote ∷ [])
          else (c, false, []))
  unfolding accept_clock
  accept_clock-eq c n announcer s = ground (arith, compare_clock-later locale_compare n c.clock s)

  -- An announcement that is a valid clock of the session and of the next epoch, from the current
  -- host, becomes the clock and is told; every other leaves the coordinator as it is.
  pub apply_announcement_lem :
      (c : Coordinator) (incoming : Value) (announcer : String) → Outcome c incoming announcer
  unfolding apply_announcement
  apply_announcement_lem c incoming announcer =
      elim (Option-cases (normalize_host_clock incoming (some c.clock.session_epoch))) [
        | inl e ↦ inr (λ a. cc (e, a.normal), rw e refl)
        | inr (n, e) ↦
            decide n e (accept_clock-eq c n announcer (normalize_host_clock-IsValid incoming _ e).1)
              (Bool-cases (announcer == c.clock.host_id && n.host_epoch == c.clock.host_epoch + 1))
      ]
    where
      decide :
          (n : HostClock)
          → normalize_host_clock incoming (some c.clock.session_epoch) ≡ some n
          → accept_clock locale_compare c (some n) announcer ≡ (
              if announcer == c.clock.host_id && n.host_epoch == c.clock.host_epoch + 1
              then (record c { clock = n }, true, host_changed n remote ∷ [])
              else (c, false, []))
          → ((announcer == c.clock.host_id && n.host_epoch == c.clock.host_epoch + 1) ≡ true)
            ⊎ ((announcer == c.clock.host_id && n.host_epoch == c.clock.host_epoch + 1) ≡ false)
          → Outcome c incoming announcer
      decide n e q (inl t) = inl (
        record {
          clock = n;
          normal = e;
          from_host = ground (arith, eq_iff announcer c.clock.host_id);
          next_epoch = ground arith;
        },
        rw (e, q, t) refl,
      )
      decide n e q (inr f) = inr (
        λ a. ground (arith, eq_iff announcer c.clock.host_id, a.from_host, a.next_epoch, a.normal),
        rw (e, q, f) refl,
      )

  -- No announcement takes a coordinator back to an earlier epoch or to another session, and none
  -- closes it or opens it again.
  pub apply_announcement_monotone :
      (c : Coordinator) (incoming : Value) (announcer : String)
      → let c' = (apply_announcement locale_compare c incoming announcer).0 in
        (c.clock.host_epoch ≤ c'.clock.host_epoch)
        × (c'.clock.session_epoch ≡ c.clock.session_epoch)
        × (c'.self_id ≡ c.self_id)
        × (c'.closed ≡ c.closed)
  apply_announcement_monotone c incoming announcer =
      elim (apply_announcement_lem c incoming announcer) [
        | inl (a, q) ↦
            let same = (normalize_host_clock-IsValid incoming _ a.normal).1 in
            let later = a.next_epoch in rw q (omega arith, same, refl, refl)
        | inr (_, q) ↦ rw q (omega arith, refl, refl, refl)
      ]

-- The host is lost to a participant: nothing is known of it, or it is offline, or its connection
-- is given up, and its route is not being recovered.
abbrev pub IsLost : Option PeerRuntime → Type 0
IsLost none = Unit
IsLost (some host) =
    (host.connection_state ≢ some recovering)
    × ((host.connection_state ≡ some disconnected) ⊎ (host.online ≡ false))

IsLost-iff :
    (host : Option PeerRuntime)
    → ((not (is_recovering host) && hard_loss host) ≡ true) ↔ IsLost host
IsLost-iff none = ground arith
IsLost-iff (some host) = state host.connection_state refl
  where
    state :
        (s : Option ConnectionState)
        → host.connection_state ≡ s
        → ((not (is_recovering (some host)) && hard_loss (some host)) ≡ true) ↔ IsLost (some host)
    state none e = ground arith
    state (some connected) e = ground arith
    state (some recovering) e = ground arith
    state (some disconnected) e = ground arith

abbrev verdict : Coordinator → Bool → Coordinator × List Event
verdict c b = if b then (record c { closed = true }, host_lost ∷ []) else (c, [])

evaluate-eq :
    (c : Coordinator)
    → evaluate c
      ≡ verdict c (
          not c.closed
          && not (c.clock.host_id == c.self_id)
          && (not (is_recovering (get c.clock.host_id c.peers))
              && hard_loss (get c.clock.host_id c.peers)))
unfolding evaluate
evaluate-eq c = ground arith

-- A participant that is not the host closes exactly when the host is lost to it, and then says
-- so once; the host never closes itself, a closed coordinator stays closed, and the authority
-- (the clock) and the peers are never changed: no host is inferred from reachability.
pub evaluate_lem :
    (c : Coordinator)
    → let (c', events) = evaluate c in
      (c'.clock ≡ c.clock)
      × (c'.peers ≡ c.peers)
      × (c'.self_id ≡ c.self_id)
      × ((events ≡ host_lost ∷ []) ↔ (
          (c.closed ≡ false)
          × (c.clock.host_id ≢ c.self_id)
          × IsLost (get c.clock.host_id c.peers)))
      × ((c'.closed ≡ true) ↔ ((c.closed ≡ true) ⊎ (events ≡ host_lost ∷ [])))
evaluate_lem c = rw (evaluate-eq c) (
    judge (c.closed) (c.clock.host_id == c.self_id) _ refl refl
      (IsLost-iff (get c.clock.host_id c.peers)))
  where
    judge :
        (closed self lost : Bool)
        → c.closed ≡ closed
        → (c.clock.host_id == c.self_id) ≡ self
        → (lost ≡ true) ↔ IsLost (get c.clock.host_id c.peers)
        → let (c', events) = verdict c (not closed && not self && lost) in
          (c'.clock ≡ c.clock)
          × (c'.peers ≡ c.peers)
          × (c'.self_id ≡ c.self_id)
          × ((events ≡ host_lost ∷ []) ↔ (
              (c.closed ≡ false)
              × (c.clock.host_id ≢ c.self_id)
              × IsLost (get c.clock.host_id c.peers)))
          × ((c'.closed ≡ true) ↔ ((c.closed ≡ true) ⊎ (events ≡ host_lost ∷ [])))
    judge true self lost q r l = (refl, refl, refl, (λ e. cc, λ e. cc (e.0)), (λ e. inl e, λ e. q))
    judge false true lost q r l = (
      refl,
      refl,
      refl,
      (λ e. cc, λ e. absurd (e.1 ((eq_iff _ _).0 r))),
      (λ e. inl e, λ e. elim e [ inl x ↦ x | inr x ↦ cc ]),
    )
    judge false false false q r l = (
      refl,
      refl,
      refl,
      (λ e. cc, λ e. cc (l.1 e.2)),
      (λ e. inl e, λ e. elim e [ inl x ↦ x | inr x ↦ cc ]),
    )
    judge false false true q r l = (
      refl,
      refl,
      refl,
      (λ e. (q, λ s. cc ((eq_iff _ _).1 s), l.0 refl), λ e. refl),
      (λ e. inr refl, λ e. refl),
    )

-- A transfer succeeds exactly for the current host and a participant that is online; the next
-- clock differs in the host and the epoch after, and the coordinator adopts it.
pub manual_transfer_lem :
    (c : Coordinator) (target : String)
    → let next = record (c.clock) { host_epoch = c.clock.host_epoch + 1; host_id = target } in
      manual_transfer c target ≡ (
        if not (is_current_host c)
        then err not_host
        else if is_online (get target c.peers)
        then ok (record c { clock = next }, next, host_changed next manual ∷ [])
        else err target_offline)
unfolding manual_transfer
manual_transfer_lem c target = ground arith

pub manual_transfer-ok :
    (c : Coordinator) (target : String) {c' : Coordinator} {next : HostClock} {events : List Event}
    → manual_transfer c target ≡ ok (c', next, events)
    → (is_current_host c ≡ true)
      × (c' ≡ record c { clock = next })
      × (next ≡ record (c.clock) { host_epoch = c.clock.host_epoch + 1; host_id = target })
manual_transfer-ok c target h = let e = sym (manual_transfer_lem c target) ∙ h in ground (arith, e)

pub current_host_self : (c : Coordinator) → is_current_host c ≡ true → c.clock.host_id ≡ c.self_id
unfolding is_current_host
current_host_self c h = ground (arith, eq_iff c.clock.host_id c.self_id)

-- What the participant learns of its peers leaves its identity and its clock alone.
abbrev pub SameAuthority : Coordinator → Coordinator → Type 0
SameAuthority c c' = (c'.self_id ≡ c.self_id) × (c'.clock ≡ c.clock)

pub upsert_peer-SameAuthority :
    (c : Coordinator) (p : PeerRuntime) → SameAuthority c (upsert_peer c p)
unfolding upsert_peer
upsert_peer-SameAuthority c p = (refl, refl)

pub mark_heartbeat-SameAuthority :
    (c : Coordinator) (p : String) (at : ℕ) → SameAuthority c (mark_heartbeat c p at)
unfolding mark_heartbeat
mark_heartbeat-SameAuthority c p at = ground arith

pub mark_disconnected-SameAuthority :
    (c : Coordinator) (p : String) → SameAuthority c (mark_disconnected c p)
unfolding mark_disconnected
mark_disconnected-SameAuthority c p = ground arith
