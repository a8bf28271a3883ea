-- ===== src/Workspace/Privacy.antt =====
-- What the operations of a persistent workspace do to private paths
-- (src/vps/persistentStorage.ts).
use jupyter_pair_ext.Base.{
  ℕ, ◌≡◌, refl, sym, ap, ◌∙◌, subst, inl, inr, Bool, true, false, not, ◌&&◌, ◌||◌, Option, none,
  List, [], ◌∷◌, ◌++◌, map, arith, Bool-cases, Option-cases, nat_eq, string_eq, Result,
  Result-cases, ok, err, ◌>>=◌, is_some, bind-ok, any, filter,
}
use mathlib.Core.List.{Memᴰ}
use mathlib.Core.List.Memᴰ.{head, tail}
use jupyter_pair_ext.Base.Codes.{Text, text_eqb_iff}
use jupyter_pair_ext.Workspace.{
  is_within, parents, ErrorCode, invalid_path, Visibility, StoredEntry, Manifest, is_marked_private,
  is_private, visibility_of, find_entry, authorize, authorize_subtree, is_directory, new_directory,
  ensure_each, ensure_parents,
}
use jupyter_pair_ext.Workspace.Paths.{any-elim, any-intro, is_private-is_within}
use jupyter_pair_ext.Workspace.Operations.{
  normalize_path, make_directory, moved, move_entries, rename_normalized, rename_entry,
  remove_entry,
}

-- A path is private if it lies within a marked entry, and only then.
pub marked-is_private :
    (name : Text) (entries : List StoredEntry) (e : StoredEntry)
    → Memᴰ e entries
    → is_marked_private e ≡ true
    → is_within name e.path ≡ true
    → is_private name entries ≡ true
marked-is_private name entries e m k w =
    is_private-is_within name entries
    ∙ any-intro (λ e. is_marked_private e && is_within name e.path) entries m (rw (k, w) refl)

pub is_private-marked :
    (name : Text) (entries : List StoredEntry)
    → is_private name entries ≡ true
    → (e : StoredEntry) × Memᴰ e entries
      × (is_marked_private e ≡ true)
      × (is_within name e.path ≡ true)
is_private-marked name entries h =
    let (e, m, t) =
      any-elim (λ e. is_marked_private e && is_within name e.path) entries
        (sym (is_private-is_within name entries) ∙ h) in
    (e, m, ground (arith, t), ground (arith, t))

-- Private entries are kept as they are, and what is private stays private.
pub record Keeps (m m' : Manifest) : Type 0 where
  pub kept :
      (e : StoredEntry) → Memᴰ e m.entries → is_private e.path m.entries ≡ true → Memᴰ e m'.entries
  pub still_private :
      (name : Text) → is_private name m.entries ≡ true → is_private name m'.entries ≡ true

pub is_within_refl : (p : Text) → is_within p p ≡ true
is_within_refl p = ground (arith, text_eqb_iff p p)

-- It is enough that the private entries are kept: the marked ones are among them.
pub keeps :
    (m m' : Manifest)
    → ((e : StoredEntry)
        → Memᴰ e m.entries
        → is_private e.path m.entries ≡ true
        → Memᴰ e m'.entries)
    → Keeps m m'
keeps m m' k = record {
  kept = k;
  still_private = λ name h.
      let (e, there, marked, inside) = is_private-marked name m.entries h in
      marked-is_private name m'.entries e
        (k e there (marked-is_private e.path m.entries e there marked (is_within_refl e.path)))
        marked inside;
}

ok_inj : {a b : Manifest} → ◌≡◌ {A = Result ErrorCode Manifest} (ok a) (ok b) → a ≡ b
ok_inj e = cc

module _ {ℓ} {A : Type ℓ} where
  Mem-filter : (p : A → Bool) (xs : List A) {x : A} → Memᴰ x xs → p x ≡ true → Memᴰ x (filter p xs)
  Mem-filter p [] m h = elim m [ ]
  Mem-filter p (y ∷ xs) (head e) h =
      let h' : p y ≡ true = subst (λ z. p z ≡ true) e h in rw h' (head e)
  Mem-filter p (y ∷ xs) (tail m) h = elim (Bool-cases (p y)) [
    | inl t ↦ rw t (tail (Mem-filter p xs m h))
    | inr t ↦ rw t (Mem-filter p xs m h)
  ]

  pub Mem-append : (xs ys : List A) {x : A} → Memᴰ x xs → Memᴰ x (xs ++ ys)
  Mem-append [] ys m = elim m [ ]
  Mem-append (y ∷ xs) ys (head e) = head e
  Mem-append (y ∷ xs) ys (tail m) = tail (Mem-append xs ys m)

module _ {ℓ κ} {A : Type ℓ} {B : Type κ} where
  pub Mem-map : (f : A → B) (xs : List A) {x : A} → Memᴰ x xs → Memᴰ (f x) (map f xs)
  Mem-map f [] m = elim m [ ]
  Mem-map f (y ∷ xs) (head e) = head (ap f e)
  Mem-map f (y ∷ xs) (tail m) = tail (Mem-map f xs m)

authorize_subtree-ok :
    (chosen : StoredEntry → Bool) (m : Manifest) (e : StoredEntry)
    → any (λ (e : StoredEntry). is_private e.path m.entries) (filter chosen m.entries) ≡ false
    → Memᴰ e m.entries
    → is_private e.path m.entries ≡ true
    → chosen e ≡ false
authorize_subtree-ok chosen m e h there p = elim (Bool-cases (chosen e)) [
  | inr f ↦ f
  | inl t ↦
      let found =
        any-intro (λ (e : StoredEntry). is_private e.path m.entries) (filter chosen m.entries)
          (Mem-filter chosen m.entries there t) p in
      cc (found, h)
]

-- The directories that a path needs are added after what is there.
pub ensure_each-Mem :
    (now : ℕ) (ps : List Text) (m : Manifest) {m' : Manifest} (e : StoredEntry)
    → ensure_each now ps m ≡ ok m'
    → Memᴰ e m.entries
    → Memᴰ e m'.entries
unfolding ensure_each
ensure_each-Mem now [] m e h there = subst (λ x. Memᴰ e x.entries) (ok_inj h) there
ensure_each-Mem now (p ∷ ps) m {m'} e h there = elim (Option-cases (find_entry p m.entries)) [
  | inl k ↦
      let h' : ensure_each now ps
            (record m { entries = m.entries ++ (new_directory now p none m.revision ∷ []) })
          ≡ ok m' =
        simp (k, ensure_each) at h in
      ensure_each-Mem now ps _ e h' (Mem-append m.entries _ there)
  | inr (d, k) ↦ elim (Bool-cases (is_directory d)) [
    | inl t ↦
        let h' : ensure_each now ps m ≡ ok m' = simp (k, t, ensure_each) at h in
        ensure_each-Mem now ps m e h' there
    | inr t ↦ let h' : err invalid_path ≡ ok m' = simp (k, t, ensure_each) at h in cc h'
  ]
]

-- What a rename that succeeds has checked, and what it gives.
pub rename_normalized-ok :
    (now : ℕ) (name target : Text) (owner : Bool) (m : Manifest) {m' : Manifest}
    → rename_normalized now name target owner m ≡ ok m'
    → (made : Manifest) × (is_some (find_entry name m.entries) ≡ true)
      × ((owner
            || not (
                any
                  (λ (e : StoredEntry). is_private e.path m.entries)
                  (filter (λ (e : StoredEntry). is_within e.path name) m.entries)))
          ≡ true)
      × (ensure_each now (parents target) m ≡ ok made)
      × (move_entries now m.revision name target (visibility_of name m.entries) made ≡ m')
unfolding rename_normalized authorize authorize_subtree ensure_parents
rename_normalized-ok now name target owner m h =
    elim (Result-cases (ensure_each now (parents target) m)) [
      | inl (made, e) ↦ (made, ground (arith, h), ground (arith, h), e, ground (arith, h, e))
      | inr (x, e) ↦ ground (arith, h, e)
    ]

rename_normalized-Keeps :
    (now : ℕ) (name target : Text) (m : Manifest) {m' : Manifest}
    → rename_normalized now name target false m ≡ ok m'
    → Keeps m m'
unfolding move_entries moved
rename_normalized-Keeps now name target m {m'} h =
    let (made, _, allowed, grown, same) = rename_normalized-ok now name target false m h in
    let none_private : any (λ (e : StoredEntry). is_private e.path m.entries)
          (filter (λ (e : StoredEntry). is_within e.path name) m.entries)
        ≡ false =
      ground (arith, allowed) in
    keeps m m' (λ e there p.
      let outside = authorize_subtree-ok (λ e. is_within e.path name) m e none_private there p in
      let stays : moved now m.revision name target (visibility_of name m.entries) e ≡ e =
        simp (outside, moved) refl in
      subst (λ (x : Manifest). Memᴰ e x.entries) same
        (subst
          (λ x.
            Memᴰ x
              (map (moved now m.revision name target (visibility_of name m.entries)) made.entries))
          stays
          (Mem-map (moved now m.revision name target (visibility_of name m.entries)) made.entries
            (ensure_each-Mem now (parents target) m e grown there))))

module _ (normalize : Text → Text) where
  pub remove_entry-Keeps :
      (value : Text) (m : Manifest) {m' : Manifest}
      → remove_entry normalize value false m ≡ ok m'
      → Keeps m m'
  unfolding remove_entry authorize authorize_subtree
  remove_entry-Keeps value m {m'} h =
      let (name, _, h1) = bind-ok (normalize_path normalize value) _ h in
      let after : Manifest = record m {
        entries = filter (λ (e : StoredEntry). not (is_within e.path name)) m.entries;
      } in
      let inside = filter (λ (e : StoredEntry). is_within e.path name) m.entries in
      let (none_private, h4) : (any (λ (e : StoredEntry). is_private e.path m.entries) inside
            ≡ false)
          × (after ≡ m') =
        ground (arith, h1) in
      keeps m m' (λ e there p.
        let outside = authorize_subtree-ok (λ e. is_within e.path name) m e none_private there p in
        let there' : Memᴰ e (filter (λ (e : StoredEntry). not (is_within e.path name)) m.entries) =
          Mem-filter (λ e. not (is_within e.path name)) m.entries there (rw outside refl) in
        subst (λ x. Memᴰ e x.entries) h4 there')

  pub make_directory-Keeps :
      (now : ℕ) (value : Text) (visibility : Option Visibility) (m : Manifest) {m' : Manifest}
      → make_directory normalize now value false visibility m ≡ ok m'
      → Keeps m m'
  unfolding make_directory authorize ensure_parents
  make_directory-Keeps now value visibility m {m'} h =
      let (name, _, h1) = bind-ok (normalize_path normalize value) _ h in
      let add : Manifest → Manifest = λ made. record made {
        entries = made.entries ++ (new_directory now name visibility m.revision ∷ []);
      } in
      let h4 : (ensure_parents now name m >>= λ made. ok (add made)) ≡ ok m' = ground (arith, h1) in
      let (made, h5, h6) = bind-ok (ensure_parents now name m) _ h4 in
      keeps m m' (λ e there p.
        subst (λ x. Memᴰ e x.entries) (ok_inj h6)
          (Mem-append made.entries _ (ensure_each-Mem now (parents name) m e h5 there)))

  pub rename_entry-Keeps :
      (now : ℕ) (value new_value : Text) (m : Manifest) {m' : Manifest}
      → rename_entry normalize now value new_value false m ≡ ok m'
      → Keeps m m'
  unfolding rename_entry
  rename_entry-Keeps now value new_value m h =
      let (name, _, h1) = bind-ok (normalize_path normalize value) _ h in
      let (target, _, h2) = bind-ok (normalize_path normalize new_value) _ h1 in
      rename_normalized-Keeps now name target m h2
