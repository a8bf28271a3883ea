-- ===== src/Storage/State.antt =====
-- The fields of the adapter and what changes them at once (src/core/persistence.ts): paths here
-- are canonical.
use jupyter_pair_ext.Base.{
  ℕ, zero, suc, max, Bool, true, false, not, ◌||◌, Option, none, some, List, [], ◌∷◌, ◌++◌,
  if◌then◌else◌, nat_eq, string_eq, Result, ok, err, length, drop, any, filter, Map, get, put,
  remove,
}
use jupyter_pair_ext.Base.Codes.{Text, text_eqb, text_eq, starts_with}
use jupyter_pair_ext.Storage.{Failure, endless, Adapter, Host, canonical_relative_path}

-- `isSameOrChild`
abbrev pub is_same_or_child : Text → Text → Bool
is_same_or_child value parent = text_eqb value parent || starts_with value (parent ++ (47 ∷ []))

-- `set.add(x)`
abbrev pub add : Text → List Text → List Text
add x xs = if any (text_eqb x) xs then xs else xs ++ (x ∷ [])

-- `set.delete(x)`
abbrev pub delete : Text → List Text → List Text
delete x xs = filter (λ y. not (text_eqb y x)) xs

-- `current === from ? to : to + current.slice(from.length)`
unfoldable pub retarget : Text → Text → Text → Text
retarget from to current = if text_eqb current from then to else to ++ drop (length from) current

-- the `for` loop of `resolveCurrentPath`: what the first redirect that applies leads to
unfoldable pub redirected : Map Text Text → Text → Option Text
redirected [] current = none
redirected ((from, to) ∷ rest) current =
    if is_same_or_child current from
    then some (retarget from to current)
    else redirected rest current

-- the `while` loop; `none` when the fuel ends first
unfoldable pub follow : ℕ → Map Text Text → List Text → Text → Option Text
follow zero redirects visited current = none
follow (suc n) redirects visited current =
    if any (text_eqb current) visited then some current else elim (redirected redirects current) [
      | none ↦ some current
      | some next ↦ follow n redirects (visited ++ (current ∷ [])) next
    ]

abbrev pub or_endless : Option Text → Result Failure Text
or_endless none = err endless
or_endless (some path) = ok path

unfoldable pub resolve_current_path : ℕ → Adapter → Text → Result Failure Text
resolve_current_path fuel a path = or_endless (follow fuel a.redirects [] path)

unfoldable pub is_removed : Adapter → Text → Bool
is_removed a path = any (is_same_or_child path) a.removed

unfoldable pub clear_removed : Text → Adapter → Adapter
clear_removed path a = record a {
  removed =
      filter (λ removed. not (is_same_or_child path removed || is_same_or_child removed path))
        a.removed;
}

-- `schedule` of a canonical path: the timer is armed for the debounce
unfoldable pub schedule_path : ℕ → Text → Adapter → Adapter
schedule_path debounce path a =
    let cleared = clear_removed path a in
    record cleared { pending = add path cleared.pending; timer = some debounce }

unfoldable pub schedule : {D : Type 0} → Host D → ℕ → Text → Adapter → Result Failure Adapter
schedule host debounce path a =
    if not a.active then ok a else elim (canonical_relative_path host path) [
      | ok canonical ↦ ok (schedule_path debounce canonical a)
      | err e ↦ err e
    ]

unfoldable pub set_backing_root : Option Text → Adapter → Adapter
set_backing_root root a = record a { backing_root = root }

abbrev pub pending_count : Adapter → ℕ
pending_count a = length a.pending

-- `RETRY_DELAY_MS`
abbrev pub retry_delay_ms : ℕ
retry_delay_ms = 5000

-- the loop of `requeue`, with whether a path was restored
unfoldable pub restore : ℕ → List Text → Bool → Adapter → Result Failure (Bool × Adapter)
restore fuel [] restored a = ok (restored, a)
restore fuel (path ∷ paths) restored a = elim (resolve_current_path fuel a path) [
  | err e ↦ err e
  | ok current ↦
      let skipped = restore fuel paths restored a in
      let kept = restore fuel paths true (record a { pending = add path a.pending }) in
      if is_removed a current then skipped else kept
]

unfoldable pub requeue : ℕ → ℕ → List Text → Adapter → Result Failure Adapter
requeue fuel debounce paths a = if not a.active then ok a else elim (restore fuel paths false a) [
  | err e ↦ err e
  | ok (restored, b) ↦
      ok (if restored then record b { timer = some (max debounce retry_delay_ms) } else b)
]

-- the first part of `remove`, of a canonical path
unfoldable pub mark_removed : Text → Adapter → Adapter
mark_removed path a = record a {
  removed = add path a.removed;
  pending = filter (λ p. not (is_same_or_child p path)) a.pending;
}

-- the loop of `rename` over a copy of the pending paths, with whether one was moved
unfoldable pub remap : Text → Text → List Text → Bool → List Text → Bool × List Text
remap from to [] moved pending = (moved, pending)
remap from to (path ∷ paths) moved pending =
    let stays = remap from to paths moved pending in
    let moves = remap from to paths true (add (retarget from to path) (delete path pending)) in
    if is_same_or_child path from then moves else stays

-- the first part of `rename`, of canonical paths
unfoldable pub redirect : Text → Text → Adapter → Bool × Adapter
redirect from to a =
    let cleared =
      clear_removed to
        (record a { redirects = put from to a.redirects; removed = add from a.removed }) in
    let (moved, pending) = remap from to cleared.pending false cleared.pending in
    (moved, record cleared { pending = pending })

-- `redirects.get(from) === to`
abbrev pub leads_to : Text → Option Text → Bool
leads_to to none = false
leads_to to (some current) = text_eqb current to

-- the `finally` of `rename`
unfoldable pub end_redirect : Text → Text → Adapter → Adapter
end_redirect from to a =
    if leads_to to (get from a.redirects)
    then record a { redirects = remove from a.redirects }
    else a
