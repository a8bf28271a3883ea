-- ===== src/RouteScoring.antt =====
-- Route selection: src/runtime/routeScoring.ts. A round-trip time is an integer number of some
-- small unit, negative when it was not measured; 80% is taken exactly.
use jupyter_pair_ext.Base.{
  ℕ, ◌*◌, ◌≡◌, refl, inl, inr, Bool, true, false, arith, ltb, leb, if◌then◌else◌, Bool-cases,
  nat_eq, string_eq,
}
use jupyter_pair_ext.Base.Int.{ℤ, pos, negsuc, is_negative}

pub data RouteKind : Type 0 where
  direct relay : RouteKind

pub record RouteQuality : Type 0 where
  pub kind : RouteKind
  pub rtt : ℤ
  pub recent_failures : ℕ

pub data DecisionReason : Type 0 where
  candidate_unverified candidate_unstable relay_to_direct meaningful_direct_improvement
        marginal_improvement candidate_not_better :
      DecisionReason

-- `candidate.rttMs < reference * MIN_DIRECT_IMPROVEMENT_RATIO`, where an unmeasured reference is
-- infinite
unfoldable pub is_meaningful : ℤ → ℤ → Bool
is_meaningful (pos reference) (pos candidate) = ltb (10 * candidate) (8 * reference)
is_meaningful (pos reference) (negsuc candidate) = true
is_meaningful (negsuc reference) candidate = true

-- `candidate.rttMs <= reference`
unfoldable pub is_not_slower : ℤ → ℤ → Bool
is_not_slower (pos reference) (pos candidate) = leb candidate reference
is_not_slower (pos reference) (negsuc candidate) = true
is_not_slower (negsuc reference) candidate = true

unfoldable pub both_direct : RouteKind → RouteKind → ℤ → ℤ → Bool × DecisionReason
both_direct direct direct reference candidate =
    if is_meaningful reference candidate
    then (true, meaningful_direct_improvement)
    else if is_not_slower reference candidate
    then (false, marginal_improvement)
    else (false, candidate_not_better)
both_direct relay direct reference candidate = (true, relay_to_direct)
both_direct direct relay reference candidate = (false, candidate_not_better)
both_direct relay relay reference candidate = (false, candidate_not_better)

unfoldable pub should_migrate_route : RouteQuality → RouteQuality → Bool × DecisionReason
should_migrate_route current candidate =
    if is_negative candidate.rtt
    then (false, candidate_unverified)
    else if ltb 0 candidate.recent_failures
    then (false, candidate_unstable)
    else both_direct current.kind candidate.kind current.rtt candidate.rtt

both_direct-back :
    (k l : RouteKind) (a b : ℤ)
    → is_negative a ≡ false
    → is_negative b ≡ false
    → (both_direct k l a b).0 ≡ true
    → (both_direct l k b a).0 ≡ false
unfolding both_direct is_meaningful is_not_slower
both_direct-back direct direct (pos a) (pos b) m n h = ground arith
both_direct-back direct direct (pos a) (negsuc b) m n h = cc n
both_direct-back direct direct (negsuc a) b m n h = cc m
both_direct-back relay direct a b m n h = refl
both_direct-back direct relay a b m n h = cc h
both_direct-back relay relay a b m n h = cc h

-- The routes do not flap: where one route may replace another, that one may not replace it in
-- turn, as long as their measurements stay as they are.
pub should_migrate_route_asymmetric :
    (current candidate : RouteQuality)
    → (should_migrate_route current candidate).0 ≡ true
    → (should_migrate_route candidate current).0 ≡ false
unfolding should_migrate_route
should_migrate_route_asymmetric current candidate h = elim (Bool-cases (is_negative current.rtt)) [
  | inl t ↦ rw t refl
  | inr current_measured ↦
      let (measured, allowed) : (is_negative candidate.rtt ≡ false)
          × ((both_direct current.kind candidate.kind current.rtt candidate.rtt).0 ≡ true) =
        ground (arith, h) in
      let back =
        both_direct-back current.kind candidate.kind current.rtt candidate.rtt current_measured
          measured allowed in
      ground (arith, current_measured, back)
]
