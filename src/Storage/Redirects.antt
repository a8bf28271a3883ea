-- ===== src/Storage/Redirects.antt =====
-- When the loop of `resolveCurrentPath` (src/core/persistence.ts) ends.
use jupyter_pair_ext.Base.{
  append_assoc, ℕ, zero, suc, ◌-◌, ◌≤◌, ◌<◌, ◌≡◌, refl, sym, ap, ◌∙◌, subst, inl, inr, Bool, true,
  false, not, ◌&&◌, ◌||◌, none, some, List, [], ◌∷◌, ◌++◌, arith, ltb, if◌then◌else◌, Bool-cases,
  nat_eq, string_eq, ok, err, length, drop, all, any, length-append, drop-append, Map, put,
}
use jupyter_pair_ext.Base.Codes.{Text, text_eqb, text_eq, text_eqb_iff}
use jupyter_pair_ext.Workspace.Paths.{is_stem, is_within-append, is_within-split, is_within-total}
use jupyter_pair_ext.Storage.{endless, Adapter}
use jupyter_pair_ext.Storage.State.{
  is_same_or_child, retarget, redirected, follow, or_endless, resolve_current_path, clear_removed,
  redirect,
}

abbrev pub touches : Text → Text × Text → Bool
touches current (from, to) = is_same_or_child current from

-- neither of two paths is the other or within it
abbrev pub is_apart : Text → Text × Text → Bool
is_apart to (from, x) = not (is_same_or_child to from) && not (is_same_or_child from to)

-- The target of each redirect is apart from its source and from the sources of those before it.
unfoldable pub are_forward : Map Text Text → Map Text Text → Bool
are_forward before [] = true
are_forward before ((from, to) ∷ rest) =
    all (is_apart to) (before ++ ((from, to) ∷ []))
    && are_forward (before ++ ((from, to) ∷ [])) rest

any-append :
    (current : Text) (xs ys : Map Text Text)
    → any (touches current) (xs ++ ys) ≡ (any (touches current) xs || any (touches current) ys)
any-append current [] ys = refl
any-append current (x ∷ xs) ys = ground (arith, any-append current xs ys)

redirected-append :
    (xs ys : Map Text Text) (current : Text)
    → any (touches current) xs ≡ false
    → redirected (xs ++ ys) current ≡ redirected ys current
unfolding redirected
redirected-append [] ys current h = refl
redirected-append ((from, to) ∷ xs) ys current h =
    ground (arith, h, redirected-append xs ys current)

redirected-none :
    (xs : Map Text Text) (current : Text)
    → any (touches current) xs ≡ false
    → redirected xs current ≡ none
unfolding redirected
redirected-none [] current h = refl
redirected-none ((from, to) ∷ xs) current h = ground (arith, h, redirected-none xs current)

append-nil : (xs : Text) → xs ++ [] ≡ xs
append-nil [] = refl
append-nil (x ∷ xs) = ap (λ z. x ∷ z) (append-nil xs)

drop-length : (xs : Text) → drop (length xs) xs ≡ []
drop-length [] = refl
drop-length (x ∷ xs) = drop-length xs

retarget-append :
    (from to current : Text) → retarget from to current ≡ to ++ drop (length from) current
unfolding retarget
retarget-append from to current = elim (Bool-cases (text_eqb current from)) [
  | inl e ↦
      let same = (text_eqb_iff current from).0 e in
      let here : retarget from to current ≡ to = simp e refl in
      here
      ∙ sym (
          ap (λ c. to ++ drop (length from) c) same
          ∙ ap (λ d. to ++ d) (drop-length from)
          ∙ append-nil to)
  | inr n ↦ simp n refl
]

-- Where a redirect leads lies within its target.
retarget-within :
    (from to current : Text)
    → is_same_or_child current from ≡ true
    → is_same_or_child (retarget from to current) to ≡ true
retarget-within from to current h =
    subst (λ x. is_same_or_child x to ≡ true) (sym (retarget-append from to current))
      (is_within-append to (drop (length from) current) ∙ (is_within-split current from h).1)

-- What lies within a path that is apart from the sources is within none of them.
apart-untouched :
    (current to : Text) (xs : Map Text Text)
    → is_same_or_child current to ≡ true
    → all (is_apart to) xs ≡ true
    → any (touches current) xs ≡ false
apart-untouched current to [] h k = refl
apart-untouched current to ((from, x) ∷ xs) h k =
    ground (arith, h, k, is_within-total current to from, apart-untouched current to xs h)

redirected-here :
    (from to : Text) (rest : Map Text Text) (current : Text)
    → is_same_or_child current from ≡ true
    → redirected ((from, to) ∷ rest) current ≡ some (retarget from to current)
unfolding redirected
redirected-here from to rest current h = simp h refl

-- the visited paths are within the sources before: the current one is none of them
visited-new :
    (visited : List Text) (current : Text) (xs : Map Text Text)
    → any (touches current) xs ≡ false
    → all (λ v. any (touches v) xs) visited ≡ true
    → any (text_eqb current) visited ≡ false
visited-new [] current xs h k = refl
visited-new (v ∷ visited) current xs h k = elim (Bool-cases (text_eqb current v)) [
  | inl e ↦
      let same = (text_eqb_iff current v).0 e in
      let touched : any (touches v) xs ≡ true = ground (arith, k) in
      let untouched : any (touches v) xs ≡ false = subst (λ x. any (touches x) xs ≡ false) same h in
      cc (touched, untouched)
  | inr n ↦ let rest = visited-new visited current xs h ground (arith, k) in ground (arith, n, rest)
]

all-weaken :
    (visited : List Text) (xs : Map Text Text) (y : Text × Text)
    → all (λ v. any (touches v) xs) visited ≡ true
    → all (λ v. any (touches v) (xs ++ (y ∷ []))) visited ≡ true
all-weaken [] xs y h = refl
all-weaken (v ∷ visited) xs y h =
    ground (arith, h, any-append v xs (y ∷ []), all-weaken visited xs y)

all-snoc :
    (p : Text → Bool) (visited : List Text) (x : Text)
    → all p visited ≡ true
    → p x ≡ true
    → all p (visited ++ (x ∷ [])) ≡ true
all-snoc p [] x h k = ground (arith, k)
all-snoc p (v ∷ visited) x h k = ground (arith, h, k, all-snoc p visited x)

abbrev Settled : ℕ → Map Text Text → List Text → Text → Type 0
Settled n redirects visited current =
    (r : Text) × (follow n redirects visited current ≡ some r) × (any (touches r) redirects ≡ false)

-- the step of the loop
follow-step :
    (n : ℕ) (redirects : Map Text Text) (visited : List Text) (current next : Text)
    → any (text_eqb current) visited ≡ false
    → redirected redirects current ≡ some next
    → follow (suc n) redirects visited current ≡ follow n redirects (visited ++ (current ∷ [])) next
unfolding follow
follow-step n redirects visited current next h k = simp (h, k) refl

follow-end :
    (n : ℕ) (redirects : Map Text Text) (visited : List Text) (current : Text)
    → any (text_eqb current) visited ≡ false
    → redirected redirects current ≡ none
    → follow (suc n) redirects visited current ≡ some current
unfolding follow
follow-end n redirects visited current h k = simp (h, k) refl

follow-settles :
    (n : ℕ) (before rest : Map Text Text) (visited : List Text) (current : Text)
    → are_forward before rest ≡ true
    → any (touches current) before ≡ false
    → all (λ v. any (touches v) before) visited ≡ true
    → length rest < n
    → Settled n (before ++ rest) visited current
unfolding are_forward
follow-settles zero before rest visited current f u v l = ground (arith, l)
follow-settles (suc n) before [] visited current f u v l =
    let new = visited-new visited current before u v in
    let ends : any (touches current) (before ++ []) ≡ false =
      ground (arith, u, any-append current before []) in
    (
      current,
      follow-end n (before ++ []) visited current new (redirected-none (before ++ []) current ends),
      ends,
    )
follow-settles (suc n) before ((from, to) ∷ rest) visited current f u v l =
    let apart : all (is_apart to) (before ++ ((from, to) ∷ [])) ≡ true = ground (arith, f) in
    let forward : are_forward (before ++ ((from, to) ∷ [])) rest ≡ true = ground (arith, f) in
    let more = all-weaken visited before (from, to) v in
    let new = visited-new visited current before u v in
    subst (λ rs. Settled (suc n) rs visited current) (append_assoc before ((from, to) ∷ []) rest)
      (elim (Bool-cases (is_same_or_child current from)) [
        | inl t ↦
            let next = retarget from to current in
            let within = retarget-within from to current t in
            let leads : redirected ((before ++ ((from, to) ∷ [])) ++ rest) current ≡ some next =
              ap (λ rs. redirected rs current) (append_assoc before ((from, to) ∷ []) rest)
              ∙ redirected-append before ((from, to) ∷ rest) current u
              ∙ redirected-here from to rest current t in
            let (r, e, end) =
              follow-settles n (before ++ ((from, to) ∷ [])) rest (visited ++ (current ∷ [])) next
                forward (apart-untouched next to (before ++ ((from, to) ∷ [])) within apart)
                (all-snoc (λ x. any (touches x) (before ++ ((from, to) ∷ []))) visited current more
                  ground (arith, t, any-append current before ((from, to) ∷ [])))
                ground (arith, l) in
            (
              r,
              follow-step n ((before ++ ((from, to) ∷ [])) ++ rest) visited current next new leads
                  ∙ e,
              end,
            )
        | inr o ↦
            follow-settles (suc n) (before ++ ((from, to) ∷ [])) rest visited current forward ground
              (arith, u, o, any-append current before ((from, to) ∷ [])) more omega (arith, l)
      ])

resolve-follow :
    (n : ℕ) (a : Adapter) (path current : Text)
    → follow n a.redirects [] path ≡ some current
    → resolve_current_path n a path ≡ ok current
unfolding resolve_current_path
resolve-follow n a path current e = ap or_endless e

resolve-endless :
    (n : ℕ) (a : Adapter) (path : Text)
    → follow n a.redirects [] path ≡ none
    → resolve_current_path n a path ≡ err endless
unfolding resolve_current_path
resolve-endless n a path e = ap or_endless e

-- Where the target of each redirect is apart from its source and from the sources of the
-- redirects before it, resolving a path ends within one round for each redirect and one more,
-- with a path that no redirect applies to.
pub resolve_current_path-settles :
    (a : Adapter) (path : Text)
    → are_forward [] a.redirects ≡ true
    → (current : Text) × (resolve_current_path (suc (length a.redirects)) a path ≡ ok current)
      × (redirected a.redirects current ≡ none)
resolve_current_path-settles a path h =
    let (current, e, end) =
      follow-settles (suc (length a.redirects)) [] a.redirects [] path h refl refl omega arith in
    (
      current,
      resolve-follow (suc (length a.redirects)) a path current e,
      redirected-none a.redirects current end,
    )

-- Two redirects that lead into each other: the paths get longer for ever.
module _ (a b x y : Text) where
  abbrev into_each_other : Map Text Text
  into_each_other = (a, b ++ (47 ∷ x)) ∷ (b, a ++ (47 ∷ y)) ∷ []

  -- how much of a path stands below the source that it is within
  abbrev below : Text → ℕ
  below v = if is_same_or_child v a then length v - length a else length v - length b

  abbrev are_shorter : ℕ → List Text → Bool
  are_shorter n visited = all (λ v. ltb (below v) n) visited

  abbrev Grows : ℕ → Text → Type 0
  Grows n p =
      (visited : List Text) (s : Text)
      → is_stem s ≡ true
      → are_shorter (length s) visited ≡ true
      → follow n into_each_other visited (p ++ s) ≡ none

  shorter-new :
      (visited : List Text) (v : Text)
      → are_shorter (below v) visited ≡ true
      → any (text_eqb v) visited ≡ false
  shorter-new [] v h = refl
  shorter-new (u ∷ visited) v h = elim (Bool-cases (text_eqb v u)) [
    | inl e ↦
        let same : below v ≡ below u = ap below ((text_eqb_iff v u).0 e) in ground (arith, h, same)
    | inr n ↦ ground (arith, n, shorter-new visited v ground (arith, h))
  ]

  are_shorter-more :
      (m n : ℕ) (visited : List Text)
      → m ≤ n
      → are_shorter m visited ≡ true
      → are_shorter n visited ≡ true
  are_shorter-more m n [] l h = refl
  are_shorter-more m n (v ∷ visited) l h = ground (arith, h, are_shorter-more m n visited l)

  -- one round: the path below the source gets longer
  grow :
      (n : ℕ) (p q t : Text)
      → ((s : Text)
          → is_stem s ≡ true
          → redirected into_each_other (p ++ s) ≡ some (q ++ ((47 ∷ t) ++ s)))
      → ((s : Text) → is_stem s ≡ true → below (p ++ s) ≡ length s)
      → Grows n q
      → Grows (suc n) p
  grow n p q t leads measure next visited s h k =
      let e = measure s h in
      let longer : length s ≤ suc (length (t ++ s)) = omega (arith, length-append t s) in
      let new = shorter-new visited (p ++ s) (ap (λ m. are_shorter m visited) e ∙ k) in
      follow-step n into_each_other visited (p ++ s) (q ++ ((47 ∷ t) ++ s)) new (leads s h)
      ∙ next (visited ++ ((p ++ s) ∷ [])) ((47 ∷ t) ++ s) refl (
          all-snoc (λ v. ltb (below v) (suc (length (t ++ s)))) visited (p ++ s)
            (are_shorter-more (length s) (suc (length (t ++ s))) visited longer k) ground
            (arith, e, length-append t s))

  module _ (apart : is_same_or_child a b ≡ false) (apart' : is_same_or_child b a ≡ false) where
    second-untouched : (s : Text) → is_stem s ≡ true → is_same_or_child (b ++ s) a ≡ false
    second-untouched s h =
        ground (arith, apart, apart', is_within-append b s, h, is_within-total (b ++ s) a b)

    leads :
        (p q t s : Text) (rest : Map Text Text)
        → is_stem s ≡ true
        → redirected ((p, q ++ (47 ∷ t)) ∷ rest) (p ++ s) ≡ some (q ++ ((47 ∷ t) ++ s))
    leads p q t s rest h =
        redirected-here p (q ++ (47 ∷ t)) rest (p ++ s) (is_within-append p s ∙ h)
        ∙ ap some (
            retarget-append p (q ++ (47 ∷ t)) (p ++ s)
            ∙ ap (λ d. (q ++ (47 ∷ t)) ++ d) (drop-append p s)
            ∙ append_assoc q (47 ∷ t) s)

    from_second :
        (s : Text)
        → is_stem s ≡ true
        → redirected into_each_other (b ++ s) ≡ some (a ++ ((47 ∷ y) ++ s))
    from_second s h =
        redirected-append ((a, b ++ (47 ∷ x)) ∷ []) ((b, a ++ (47 ∷ y)) ∷ []) (b ++ s) ground
          (arith, second-untouched s h)
        ∙ leads b a y s [] h

    below_first : (s : Text) → is_stem s ≡ true → below (a ++ s) ≡ length s
    below_first s h = ground (arith, is_within-append a s, h, length-append a s)

    below_second : (s : Text) → is_stem s ≡ true → below (b ++ s) ≡ length s
    below_second s h = ground (arith, second-untouched s h, length-append b s)

    grows : (n : ℕ) → Grows n a × Grows n b
    unfolding follow
    grows zero = ((λ visited s h k. refl), (λ visited s h k. refl))
    grows (suc n) =
        let (first, second) = grows n in
        (
          grow n a b x (λ s. leads a b x s ((b, a ++ (47 ∷ y)) ∷ [])) below_first second,
          grow n b a y from_second below_second first,
        )

redirect-redirects :
    (from to : Text) (a : Adapter) → (redirect from to a).1.redirects ≡ put from to a.redirects
unfolding redirect clear_removed
redirect-redirects from to a = refl

put-apart :
    (a b v w : Text) → is_same_or_child a b ≡ false → put b w (put a v []) ≡ (a, v) ∷ (b, w) ∷ []
unfolding put
put-apart a b v w apart = ground (arith, apart)

-- Renaming `a` to `b/x` and, before that has run, `b` to `a/y`, where `b` and `a` are apart and no
-- other redirect is left: from then on the path of anything within `a` or `b` is never resolved,
-- whatever the number of rounds.
pub redirect-endless :
    (a b x y s : Text) (start second : Adapter)
    → start.redirects ≡ []
    → is_same_or_child a b ≡ false
    → is_same_or_child b a ≡ false
    → is_stem s ≡ true
    → second ≡ (redirect b (a ++ (47 ∷ y)) (redirect a (b ++ (47 ∷ x)) start).1).1
    → (rounds : ℕ)
    → (resolve_current_path rounds second (a ++ s) ≡ err endless)
      × (resolve_current_path rounds second (b ++ s) ≡ err endless)
redirect-endless a b x y s start second none_yet apart apart' h e rounds =
    let first = (redirect a (b ++ (47 ∷ x)) start).1 in
    let (left, right) = grows a b x y apart apart' rounds in
    let redirects : second.redirects ≡ into_each_other a b x y =
      ap (λ (u : Adapter). u.redirects) e
      ∙ redirect-redirects b (a ++ (47 ∷ y)) first
      ∙ ap (put b (a ++ (47 ∷ y)))
          (redirect-redirects a (b ++ (47 ∷ x)) start ∙ ap (put a (b ++ (47 ∷ x))) none_yet)
      ∙ put-apart a b (b ++ (47 ∷ x)) (a ++ (47 ∷ y)) apart in
    (
      resolve-endless rounds second (a ++ s)
          (ap (λ rs. follow rounds rs [] (a ++ s)) redirects ∙ left [] s h refl),
      resolve-endless rounds second (b ++ s)
          (ap (λ rs. follow rounds rs [] (b ++ s)) redirects ∙ right [] s h refl),
    )
