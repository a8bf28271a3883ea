-- ===== src/Workspace/Paths.antt =====
-- Paths and their ancestors: `within` and the loop of `visibility` (src/vps/persistentStorage.ts).
use jupyter_pair_ext.Base.{
  append_assoc, ◌≡◌, refl, sym, ap, ◌∙◌, subst, inl, inr, Bool, true, false, ◌&&◌, ◌||◌, List, [],
  ◌∷◌, ◌++◌, map, reverse, arith, nat_eqb, nat_eqb_iff, Bool-cases, nat_eq, string_eq, length, drop,
  any, filter, drop-append,
}
use mathlib.Core.List.{reverse_aux, Memᴰ}
use mathlib.Core.List.Memᴰ.{head, tail}
use jupyter_pair_ext.Base.Codes.{Text, text_eqb, starts_with}
use jupyter_pair_ext.Workspace.{
  is_within, parents, StoredEntry, is_marked_private, private_paths, is_private,
}

module _ {ℓ} {A : Type ℓ} where
  any-append : (p : A → Bool) (xs ys : List A) → any p (xs ++ ys) ≡ (any p xs || any p ys)
  any-append p [] ys = refl
  any-append p (x ∷ xs) ys = ground (arith, any-append p xs ys)

  any-reverse_aux :
      (p : A → Bool) (xs ys : List A) → any p (reverse_aux xs ys) ≡ (any p xs || any p ys)
  any-reverse_aux p [] ys = refl
  any-reverse_aux p (x ∷ xs) ys = ground (arith, any-reverse_aux p xs (x ∷ ys))

  any-reverse : (p : A → Bool) (xs : List A) → any p (reverse xs) ≡ any p xs
  any-reverse p xs = ground (arith, any-reverse_aux p xs [])

  -- a member that passes the test
  pub any-elim : (p : A → Bool) (xs : List A) → any p xs ≡ true → (x : A) × Memᴰ x xs × (p x ≡ true)
  any-elim p [] h = cc h
  any-elim p (x ∷ xs) h = elim (Bool-cases (p x)) [
    | inl t ↦ (x, head refl, t)
    | inr f ↦ let (y, m, t) = any-elim p xs ground (arith, h, f) in (y, tail m, t)
  ]

  pub any-intro : (p : A → Bool) (xs : List A) {x : A} → Memᴰ x xs → p x ≡ true → any p xs ≡ true
  any-intro p [] m h = elim m [ ]
  any-intro p (y ∷ xs) (head e) h =
      let h' : p y ≡ true = subst (λ z. p z ≡ true) e h in ground (arith, h')
  any-intro p (y ∷ xs) (tail m) h = let h' = any-intro p xs m h in ground (arith, h')

  any-filter : (p q : A → Bool) (xs : List A) → any p (filter q xs) ≡ any (λ x. q x && p x) xs
  any-filter p q [] = refl
  any-filter p q (x ∷ xs) = ground (arith, any-filter p q xs)

  any-or : (p q : A → Bool) (xs : List A) → any (λ x. p x || q x) xs ≡ (any p xs || any q xs)
  any-or p q [] = refl
  any-or p q (x ∷ xs) = ground (arith, any-or p q xs)

  any-false : (xs : List A) → any (λ x. false) xs ≡ false
  any-false [] = refl
  any-false (x ∷ xs) = any-false xs

  any-and : (b : Bool) (p : A → Bool) (xs : List A) → any (λ x. b && p x) xs ≡ (b && any p xs)
  any-and true p xs = refl
  any-and false p xs = any-false xs

  pub any-cong : (p q : A → Bool) → ((x : A) → p x ≡ q x) → (xs : List A) → any p xs ≡ any q xs
  any-cong p q h [] = refl
  any-cong p q h (x ∷ xs) = rw (h x, any-cong p q h xs) refl

module _ {ℓ κ} {A : Type ℓ} {B : Type κ} where
  any-map : (p : B → Bool) (f : A → B) (xs : List A) → any p (map f xs) ≡ any (λ x. p (f x)) xs
  any-map p f [] = refl
  any-map p f (x ∷ xs) = ground (arith, any-map p f xs)

  any-swap :
      (r : A → B → Bool) (xs : List A) (ys : List B)
      → any (λ x. any (r x) ys) xs ≡ any (λ y. any (λ x. r x y) xs) ys
  any-swap r [] ys = sym (any-false ys)
  any-swap r (x ∷ xs) ys =
      ap (λ b. any (r x) ys || b) (any-swap r xs ys)
      ∙ sym (any-or (r x) (λ y. any (λ x. r x y) xs) ys)

-- The proper ancestors of a name are the paths whose extension by '/' begins it.
pub parents-starts_with :
    (name q : Text) → any (λ p. text_eqb p q) (parents name) ≡ starts_with name (q ++ (47 ∷ []))
unfolding parents
parents-starts_with [] [] = refl
parents-starts_with [] (d ∷ ds) = refl
parents-starts_with (c ∷ cs) [] =
    let e = any-map (λ p. text_eqb p []) (λ p. c ∷ p) (parents cs) ∙ any-false (parents cs) in
    ground (arith, e)
parents-starts_with (c ∷ cs) (d ∷ ds) =
    let e =
      any-map (λ p. text_eqb p (d ∷ ds)) (λ p. c ∷ p) (parents cs)
      ∙ any-and (nat_eqb c d) (λ p. text_eqb p ds) (parents cs)
      ∙ ap (λ b. nat_eqb c d && b) (parents-starts_with cs ds) in
    ground (arith, e)

ancestors-is_within :
    (name q : Text) → any (λ p. text_eqb p q) (name ∷ reverse (parents name)) ≡ is_within name q
ancestors-is_within name q =
    ap (λ b. text_eqb name q || b)
      (any-reverse (λ p. text_eqb p q) (parents name) ∙ parents-starts_with name q)

-- A path is private exactly when it is, or lies within, the path of an entry that is marked
-- private.
pub is_private-is_within :
    (name : Text) (entries : List StoredEntry)
    → is_private name entries ≡ any (λ e. is_marked_private e && is_within name e.path) entries
unfolding is_private private_paths
is_private-is_within name entries =
    any-swap text_eqb (name ∷ reverse (parents name)) (private_paths entries)
    ∙ any-cong (λ q. any (λ p. text_eqb p q) (name ∷ reverse (parents name))) (is_within name)
        (ancestors-is_within name) (private_paths entries)
    ∙ any-map (is_within name) (λ e. e.path) (filter is_marked_private entries)
    ∙ any-filter (λ e. is_within name e.path) is_marked_private entries

-- What may follow a path in the paths within it: nothing, or '/' and more.
abbrev pub is_stem : Text → Bool
is_stem [] = true
is_stem (c ∷ cs) = nat_eqb c 47

pub is_within-append : (n s : Text) → is_within (n ++ s) n ≡ is_stem s
is_within-append [] [] = refl
is_within-append [] (c ∷ cs) = ground arith
is_within-append (c ∷ n) s = ground (arith, is_within-append n s, nat_eqb_iff c c)

pub is_within-split :
    (p n : Text)
    → is_within p n ≡ true
    → (p ≡ n ++ drop (length n) p) × (is_stem (drop (length n) p) ≡ true)
is_within-split [] [] h = (refl, refl)
is_within-split (c ∷ p) [] h = (refl, ground (arith, h))
is_within-split [] (d ∷ n) h = cc h
is_within-split (c ∷ p) (d ∷ n) h =
    let same : c ≡ d = ground (arith, h, nat_eqb_iff c d) in
    let (e, k) = is_within-split p n ground (arith, h) in
    (ap (λ x. c ∷ x) e ∙ ap (λ x. x ∷ (n ++ drop (length n) p)) same, k)

append-stem : (s t : Text) → is_stem s ≡ true → is_stem t ≡ true → is_stem (s ++ t) ≡ true
append-stem [] t h k = k
append-stem (c ∷ s) t h k = h

pub is_within_trans :
    (p q n : Text) → is_within p q ≡ true → is_within q n ≡ true → is_within p n ≡ true
is_within_trans p q n h k =
    let (e, s) = is_within-split p q h in
    let (e', s') = is_within-split q n k in
    let whole : p ≡ n ++ (drop (length n) q ++ drop (length q) p) =
      e
      ∙ ap (λ x. x ++ drop (length q) p) e'
      ∙ append_assoc n (drop (length n) q) (drop (length q) p) in
    subst (λ x. is_within x n ≡ true) (sym whole)
      (is_within-append n (drop (length n) q ++ drop (length q) p)
        ∙ append-stem (drop (length n) q) (drop (length q) p) s' s)

-- Of two ancestors of one path one is within the other.
pub is_within-total :
    (p a b : Text)
    → is_within p a ≡ true
    → is_within p b ≡ true
    → (is_within a b || is_within b a) ≡ true
is_within-total p [] [] h k = refl
is_within-total [] [] (d ∷ b) h k = cc k
is_within-total (x ∷ p) [] (d ∷ b) h k =
    ground (arith, h, k, nat_eqb_iff x d, nat_eqb_iff x 47, nat_eqb_iff d 47)
is_within-total (x ∷ p) (c ∷ a) [] h k =
    ground (arith, h, k, nat_eqb_iff x c, nat_eqb_iff x 47, nat_eqb_iff c 47)
is_within-total [] (c ∷ a) [] h k = cc h
is_within-total [] (c ∷ a) (d ∷ b) h k = cc h
is_within-total (x ∷ p) (c ∷ a) (d ∷ b) h k =
    ground (arith, h, k, is_within-total p a b, nat_eqb_iff x c, nat_eqb_iff x d, nat_eqb_iff c d)

-- What lies within a moved path lies within it afterwards.
pub is_within-moved :
    (p q name target : Text)
    → is_within p q ≡ true
    → is_within q name ≡ true
    → is_within (target ++ drop (length name) p) (target ++ drop (length name) q) ≡ true
is_within-moved p q name target h k =
    let (e, s) = is_within-split p q h in
    let (e', _) = is_within-split q name k in
    let u = drop (length name) q in
    let v = drop (length q) p in
    let whole : p ≡ name ++ (u ++ v) = e ∙ ap (λ x. x ++ v) e' ∙ append_assoc name u v in
    let cut : drop (length name) p ≡ u ++ v =
      ap (drop (length name)) whole ∙ drop-append name (u ++ v) in
    subst (λ x. is_within x (target ++ u) ≡ true)
      (append_assoc target u v ∙ ap (λ x. target ++ x) (sym cut))
      (is_within-append (target ++ u) v ∙ s)
