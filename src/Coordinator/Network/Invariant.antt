-- ===== src/Coordinator/Network/Invariant.antt =====
-- Who can be host: the history of the epochs decides it.
use jupyter_pair_ext.Base.{
  ℕ, ◌+◌, ◌≤◌, ◌<◌, String, ◌≡◌, sym, ap, ◌∙◌, inl, inr, ◌∷◌, arith, dec_lt, eq_iff, Bool-cases,
  ◌==◌, nat_eq, string_eq, beq_refl,
}
use jupyter_pair_ext.Clock.{HostClock}
use jupyter_pair_ext.Coordinator.{Coordinator}
use jupyter_pair_ext.Coordinator.Network.System.{
  update, Announcement, System, record_host, announce, replace, IsSent, IsSent-cons,
}

module _ (first : HostClock) where
  pub record Inv (s : System) : Type 0 where
    pub named : (i : String) → (s.nodes i).self_id ≡ i
    pub session : (i : String) → (s.nodes i).clock.session_epoch ≡ first.session_epoch
    pub low : (i : String) → first.host_epoch ≤ (s.nodes i).clock.host_epoch
    pub high : (i : String) → (s.nodes i).clock.host_epoch ≤ s.newest
    pub agree : (i : String) → s.hosts (s.nodes i).clock.host_epoch ≡ (s.nodes i).clock.host_id
    -- whoever was the host of an earlier epoch has handed it on
    pub moved :
        (e : ℕ) → first.host_epoch ≤ e → e < s.newest → e < (s.nodes (s.hosts e)).clock.host_epoch
    pub true_sent :
        (m : Announcement)
        → IsSent m s.sent
        → (m.clock.host_epoch ≤ s.newest) × (s.hosts m.clock.host_epoch ≡ m.clock.host_id)

  update-cases {ℓ} :
      (P : Coordinator → Type ℓ) (nodes : String → Coordinator) (i j : String) (c : Coordinator)
      → (i ≡ j → P c)
      → P (nodes j)
      → P (update nodes i c j)
  update-cases P nodes i j c same other = elim (Bool-cases (i == j)) [
    | inl t ↦ rw t (same ((eq_iff i j).0 t))
    | inr f ↦ rw f other
  ]

  pub replace-Inv :
      (s : System) (i : String) (c : Coordinator)
      → Inv s
      → c.self_id ≡ i
      → c.clock.session_epoch ≡ first.session_epoch
      → (s.nodes i).clock.host_epoch ≤ c.clock.host_epoch
      → c.clock.host_epoch ≤ s.newest
      → s.hosts c.clock.host_epoch ≡ c.clock.host_id
      → Inv (replace s i c)
  replace-Inv s i c v self same later bound true_host = record {
    named = λ j. update-cases (λ d. d.self_id ≡ j) s.nodes i j c (λ e. self ∙ e) (v.named j);
    session = λ j.
        update-cases (λ d. d.clock.session_epoch ≡ first.session_epoch) s.nodes i j c (λ e. same)
          (v.session j);
    low = λ j.
        update-cases (λ d. first.host_epoch ≤ d.clock.host_epoch) s.nodes i j c
          (λ e. omega (arith, v.low i)) (v.low j);
    high = λ j.
        update-cases (λ d. d.clock.host_epoch ≤ s.newest) s.nodes i j c (λ e. bound) (v.high j);
    agree = λ j.
        update-cases (λ d. s.hosts d.clock.host_epoch ≡ d.clock.host_id) s.nodes i j c
          (λ e. true_host) (v.agree j);
    moved = λ e l h.
        update-cases (λ d. e < d.clock.host_epoch) s.nodes i (s.hosts e) c
          (λ q. let old = rw (← q) at (v.moved e l h) in omega arith) (v.moved e l h);
    true_sent = v.true_sent;
  }

  -- A participant that is the host of its own clock holds the newest one.
  pub host-newest :
      (s : System) (i : String)
      → Inv s
      → (s.nodes i).clock.host_id ≡ i
      → (s.nodes i).clock.host_epoch ≡ s.newest
  host-newest s i v h = elim (dec_lt (s.nodes i).clock.host_epoch s.newest) [
    | yes older ↦ absurd (
        omega (arith, rw (v.agree i ∙ h) at (v.moved (s.nodes i).clock.host_epoch (v.low i) older)))
    | no newest ↦ omega (arith, v.high i)
  ]

  record_host-old :
      (hosts : ℕ → String) (n e : ℕ) (h : String) → e < n → record_host hosts n h e ≡ hosts e
  record_host-old hosts n e h lt = ground arith

  record_host-new : (hosts : ℕ → String) (n : ℕ) (h : String) → record_host hosts n h n ≡ h
  record_host-new hosts n h = ground arith

  module _ (s : System) (i : String) (c : Coordinator) (next : HostClock) (v : Inv s)
      (self : c.self_id ≡ i) (adopts : c.clock ≡ next)
      (same : next.session_epoch ≡ first.session_epoch)
      (step : next.host_epoch ≡ (s.nodes i).clock.host_epoch + 1)
      (was_host : (s.nodes i).clock.host_id ≡ i) where
    top : next.host_epoch ≡ s.newest + 1
    top = omega (arith, host-newest s i v was_host)

    hosts' : ℕ → String
    hosts' = record_host s.hosts next.host_epoch next.host_id

    old_agree : (j : String) → hosts' (s.nodes j).clock.host_epoch ≡ (s.nodes j).clock.host_id
    unfolding hosts'
    old_agree j =
        record_host-old s.hosts next.host_epoch _ next.host_id (omega (arith, top, v.high j))
        ∙ v.agree j

    moved' :
        (e : ℕ)
        → first.host_epoch ≤ e
        → e < next.host_epoch
        → e < (update s.nodes i c (hosts' e)).clock.host_epoch
    unfolding hosts'
    moved' e l h =
        rw (record_host-old s.hosts next.host_epoch e next.host_id h) (elim (dec_lt e s.newest) [
          | yes older ↦
              update-cases (λ d. e < d.clock.host_epoch) s.nodes i (s.hosts e) c (λ _. rw adopts h)
                (v.moved e l older)
          | no last ↦
              let newest : (s.nodes i).clock.host_epoch ≡ e =
                omega (arith, host-newest s i v was_host, top) in
              let host : s.hosts e ≡ i = ap s.hosts (sym newest) ∙ v.agree i ∙ was_host in
              rw (host, beq_refl i) (rw adopts h)
        ])

    sent' :
        (m : Announcement)
        → IsSent m (record { announcer = i; clock = next } ∷ s.sent)
        → (m.clock.host_epoch ≤ next.host_epoch) × (hosts' m.clock.host_epoch ≡ m.clock.host_id)
    unfolding hosts'
    sent' m q = elim (IsSent-cons q) [
      | inl e ↦ rw e (omega arith, record_host-new s.hosts next.host_epoch next.host_id)
      | inr old ↦
          let (bound, host) = v.true_sent m old in
          (
            omega (arith, top),
            record_host-old s.hosts next.host_epoch m.clock.host_epoch next.host_id
                  (omega (arith, top))
                ∙ host,
          )
    ]

    pub announce-Inv : Inv (announce s i c next)
    unfolding hosts'
    announce-Inv = record {
      named = λ j. update-cases (λ d. d.self_id ≡ j) s.nodes i j c (λ e. self ∙ e) (v.named j);
      session = λ j.
          update-cases (λ d. d.clock.session_epoch ≡ first.session_epoch) s.nodes i j c
            (λ e. rw adopts same) (v.session j);
      low = λ j.
          update-cases (λ d. first.host_epoch ≤ d.clock.host_epoch) s.nodes i j c
            (λ e. rw adopts (omega (arith, v.low i))) (v.low j);
      high = λ j.
          update-cases (λ d. d.clock.host_epoch ≤ next.host_epoch) s.nodes i j c
            (λ e. rw adopts (omega arith)) (omega (arith, v.high j, top));
      agree = λ j.
          update-cases (λ d. hosts' d.clock.host_epoch ≡ d.clock.host_id) s.nodes i j c
            (λ e. rw adopts (record_host-new s.hosts next.host_epoch next.host_id)) (old_agree j);
      moved = moved';
      true_sent = sent';
    }
