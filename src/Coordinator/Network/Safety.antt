-- ===== src/Coordinator/Network/Safety.antt =====
-- No split brain where all steps are orderly: at every moment at most one participant takes itself for the host.
use jupyter_pair_ext.Base.{
  ◌≤◌, String, ◌≡◌, refl, sym, ap, ◌∙◌, inl, inr, true, List, arith, nat_eq, string_eq, ok,
}
use jupyter_pair_ext.Base.Js.{Value}
use jupyter_pair_ext.Base.Int.{ℤ}
use jupyter_pair_ext.Clock.{HostClock}
use jupyter_pair_ext.Clock.Laws.{
  clock_value, normalize_host_clock-IsValid, normalize-clock_value_inv,
}
use jupyter_pair_ext.Coordinator.{
  Coordinator, Event, manual_transfer, apply_announcement, create, is_current_host,
}
use jupyter_pair_ext.Coordinator.Laws.{
  Accepts, apply_announcement_lem, evaluate_lem, manual_transfer-ok, current_host_self,
  SameAuthority, upsert_peer-SameAuthority, mark_heartbeat-SameAuthority,
  mark_disconnected-SameAuthority,
}
use jupyter_pair_ext.Coordinator.Network.System.{
  System, announce, replace, receive, Step, transfer, commit, deliver, forge, learn, hear, lose,
  check, start, IsOrderly, Reach, initially, later,
}
use jupyter_pair_ext.Coordinator.Network.Invariant.{Inv, replace-Inv, announce-Inv, host-newest}

module _ (first : HostClock) where
  same-Inv :
      (s : System) (i : String) (c : Coordinator)
      → Inv first s
      → SameAuthority (s.nodes i) c
      → Inv first (replace s i c)
  same-Inv s i c v (self, clock) =
      replace-Inv first s i c v (self ∙ v.named i) (rw clock (v.session i)) (rw clock (omega arith))
        (rw clock (v.high i)) (rw clock (v.agree i))

  transfer-Inv :
      (s : System) (i target : String) {c : Coordinator} {next : HostClock} {events : List Event}
      → Inv first s
      → manual_transfer (s.nodes i) target ≡ ok (c, next, events)
      → Inv first (announce s i c next)
  transfer-Inv s i target {c} {next} v h =
      let (host, is_c, is_next) = manual_transfer-ok (s.nodes i) target h in
      announce-Inv first s i c next v (rw is_c (v.named i)) (rw is_c refl)
        (rw is_next (v.session i)) (rw is_next refl)
        (current_host_self (s.nodes i) host ∙ v.named i)

  module _ (locale_compare : String → String → ℤ) where
    commit-Inv :
        (s : System) (i : String) (next : HostClock)
        → Inv first s
        → (apply_announcement locale_compare (s.nodes i) (clock_value next) i).1 ≡ true
        → Inv first (announce s i (receive locale_compare (s.nodes i) (clock_value next) i) next)
    commit-Inv s i next v h =
        elim (apply_announcement_lem locale_compare (s.nodes i) (clock_value next) i) [
          | inl (a, q) ↦
              let is_next : a.clock ≡ next = normalize-clock_value_inv next _ a.normal in
              let session = (normalize_host_clock-IsValid (clock_value next) _ a.normal).1 in
              let adopted : receive locale_compare (s.nodes i) (clock_value next) i
                  ≡ record (s.nodes i) { clock = a.clock } =
                ap (λ r. r.0) q in
              rw adopted (
                announce-Inv first s i (record (s.nodes i) { clock = a.clock }) next v (v.named i)
                  is_next (rw is_next at (session ∙ v.session i)) (rw is_next at a.next_epoch)
                  (sym a.from_host))
          | inr (_, q) ↦ cc (h, ap (λ r. r.1) q)
        ]

    -- an announcement that the receiver adopts was made by the host before
    receive-Inv :
        (s : System) (i announcer : String) (v : Value)
        → Inv first s
        → ((a : Accepts locale_compare (s.nodes i) v announcer)
            → (a.clock.host_epoch ≤ s.newest) × (s.hosts a.clock.host_epoch ≡ a.clock.host_id))
        → Inv first (replace s i (receive locale_compare (s.nodes i) v announcer))
    receive-Inv s i announcer v inv genuine =
        elim (apply_announcement_lem locale_compare (s.nodes i) v announcer) [
          | inl (a, q) ↦
              let session = (normalize_host_clock-IsValid v _ a.normal).1 in
              let adopted : receive locale_compare (s.nodes i) v announcer
                  ≡ record (s.nodes i) { clock = a.clock } =
                ap (λ r. r.0) q in
              rw adopted (
                replace-Inv first s i (record (s.nodes i) { clock = a.clock }) inv (inv.named i)
                  (session ∙ inv.session i) (omega (arith, a.next_epoch)) (genuine a).0
                  (genuine a).1)
          | inr (_, q) ↦
              let kept : receive locale_compare (s.nodes i) v announcer ≡ s.nodes i =
                ap (λ r. r.0) q in
              rw kept (same-Inv s i (s.nodes i) inv (refl, refl))
        ]

    Step-Inv :
        {s t : System}
        → (st : Step locale_compare s t) → IsOrderly locale_compare st
        → Inv first s
        → Inv first t
    Step-Inv {s} (transfer i target c next events e) o v = transfer-Inv s i target v e
    Step-Inv {s} (commit i next) e v = commit-Inv s i next v e
    Step-Inv {s} (deliver i m q) o v =
        receive-Inv s i m.announcer (clock_value m.clock) v
          (λ a. rw (normalize-clock_value_inv m.clock _ a.normal) (v.true_sent m q))
    Step-Inv {s} (forge i announcer x) other v =
        receive-Inv s i announcer x v (λ a. absurd (other a.from_host))
    Step-Inv {s} (learn i peer) o v = same-Inv s i _ v (upsert_peer-SameAuthority (s.nodes i) peer)
    Step-Inv {s} (hear i p at) o v =
        same-Inv s i _ v (mark_heartbeat-SameAuthority (s.nodes i) p at)
    Step-Inv {s} (lose i p) o v = same-Inv s i _ v (mark_disconnected-SameAuthority (s.nodes i) p)
    Step-Inv {s} (check i) o v = let e = evaluate_lem (s.nodes i) in same-Inv s i _ v (e.2, e.0)

    start-Inv : Inv first (start first)
    unfolding create
    start-Inv = record {
      named = λ i. refl;
      session = λ i. refl;
      low = λ i. omega arith;
      high = λ i. omega arith;
      agree = λ i. refl;
      moved = λ e l h. absurd (omega arith);
      true_sent = λ m q. elim q [ ];
    }

    pub Reach-Inv : {s : System} → Reach locale_compare first s → Inv first s
    Reach-Inv initially = start-Inv
    Reach-Inv (later r st o) = Step-Inv st o (Reach-Inv r)

    -- In every state that orderly steps lead to, two participants that both take themselves for
    -- the current host are one and the same. Announcements may be lost, repeated and reordered,
    -- and peers may send anything to receivers that do not take them for the host. Steps are
    -- orderly where each commit of a transfer is accepted by the committing host's own
    -- coordinator, and no peer makes up announcements to a receiver that takes it for the host,
    -- be it the present host or a former one that the receiver still trusts.
    pub one_host :
        {s : System}
        → Reach locale_compare first s
        → (i j : String) → is_current_host (s.nodes i) ≡ true
        → is_current_host (s.nodes j) ≡ true
        → i ≡ j
    one_host {s} r i j p q =
        let v = Reach-Inv r in
        let i_host : (s.nodes i).clock.host_id ≡ i = current_host_self (s.nodes i) p ∙ v.named i in
        let j_host : (s.nodes j).clock.host_id ≡ j = current_host_self (s.nodes j) q ∙ v.named j in
        let same : (s.nodes i).clock.host_epoch ≡ (s.nodes j).clock.host_epoch =
          host-newest first s i v i_host ∙ sym (host-newest first s j v j_host) in
        sym i_host ∙ sym (v.agree i) ∙ ap s.hosts same ∙ v.agree j ∙ j_host

    -- In every state that orderly steps lead to, two participants in the same epoch have the same
    -- host. Steps are orderly where each commit of a transfer is accepted by the committing
    -- host's own coordinator, and no peer makes up announcements to a receiver that takes it for
    -- the host, be it the present host or a former one that the receiver still trusts.
    pub hosts_agree :
        {s : System}
        → Reach locale_compare first s
        → (i j : String) → (s.nodes i).clock.host_epoch ≡ (s.nodes j).clock.host_epoch
        → (s.nodes i).clock.host_id ≡ (s.nodes j).clock.host_id
    hosts_agree {s} r i j same =
        let v = Reach-Inv r in sym (v.agree i) ∙ ap s.hosts same ∙ v.agree j

    -- In every state that orderly steps lead to, no participant is in a later epoch than one that
    -- takes itself for the current host. Steps are orderly where each commit of a transfer is
    -- accepted by the committing host's own coordinator, and no peer makes up announcements to a
    -- receiver that takes it for the host, be it the present host or a former one that the
    -- receiver still trusts.
    pub host_ahead :
        {s : System}
        → Reach locale_compare first s
        → (i j : String) → is_current_host (s.nodes i) ≡ true
        → (s.nodes j).clock.host_epoch ≤ (s.nodes i).clock.host_epoch
    host_ahead {s} r i j p =
        let v = Reach-Inv r in
        omega
          (arith, host-newest first s i v (current_host_self (s.nodes i) p ∙ v.named i), v.high j)
