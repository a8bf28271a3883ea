-- ===== src/Workspace/Moves.antt =====
-- A rename never publishes what was private (src/vps/persistentStorage.ts, `rename`).
use jupyter_pair_ext.Base.{
  ℕ, ◌≡◌, refl, sym, subst, ◌⊎◌, inl, inr, Bool, true, some, List, [], ◌∷◌, ◌++◌, map, arith,
  if◌then◌else◌, Bool-cases, nat_eq, string_eq, ok, is_some, length, drop,
}
use mathlib.Core.List.{Memᴰ}
use mathlib.Core.List.Memᴰ.{head, tail}
use jupyter_pair_ext.Base.Codes.{Text, text_eqb, text_eqb_iff}
use jupyter_pair_ext.Workspace.{
  is_within, parents, Visibility, private, StoredEntry, Manifest, is_marked_private, is_private,
  visibility_of, find_entry,
}
use jupyter_pair_ext.Workspace.Paths.{is_within-total, is_within-moved}
use jupyter_pair_ext.Workspace.Operations.{moved, move_entries, rename_normalized}
use jupyter_pair_ext.Workspace.Privacy.{
  marked-is_private, is_private-marked, is_within_refl, Mem-map, ensure_each-Mem,
  rename_normalized-ok,
}

find-Mem :
    (name : Text) (entries : List StoredEntry)
    → is_some (find_entry name entries) ≡ true
    → (e : StoredEntry) × Memᴰ e entries × (e.path ≡ name)
unfolding find_entry
find-Mem name [] h = cc h
find-Mem name (x ∷ xs) h = elim (Bool-cases (text_eqb x.path name)) [
  | inl t ↦ (x, head refl, (text_eqb_iff x.path name).0 t)
  | inr t ↦
      let h' : is_some (find_entry name xs) ≡ true = simp t at h in
      let (e, m, k) = find-Mem name xs h' in (e, tail m, k)
]

module _ (now revision : ℕ) (name target : Text) where
  moved-path :
      (v : Visibility) (e : StoredEntry)
      → is_within e.path name ≡ true
      → (moved now revision name target v e).path ≡ target ++ drop (length name) e.path
  unfolding moved
  moved-path v e w = simp (w, moved) refl

  moved-within :
      (v : Visibility) (e : StoredEntry)
      → is_within e.path name ≡ true
      → moved now revision name target v e ≡ record e {
        path = target ++ drop (length name) e.path;
        version = revision;
        mtime = now;
        visibility = if text_eqb e.path name then some v else e.visibility;
      }
  unfolding moved
  moved-within v e w = simp (w, moved) refl

  -- A moved entry keeps its mark; the entry that is renamed is marked if it was private.
  moved-marked :
      (v : Visibility) (e : StoredEntry)
      → is_within e.path name ≡ true
      → (is_marked_private e ≡ true) ⊎ (e.path ≡ name)
      → (e.path ≡ name → v ≡ private)
      → is_marked_private (moved now revision name target v e) ≡ true
  unfolding moved is_marked_private
  moved-marked v e w c s = elim (Bool-cases (text_eqb e.path name)) [
    | inl t ↦
        let is_private_now : v ≡ private = s ((text_eqb_iff e.path name).0 t) in
        subst (λ x. is_marked_private x ≡ true) (sym (moved-within v e w))
          (simp (t, is_private_now) refl)
    | inr t ↦ elim c [
      | inl marked ↦
          subst (λ x. is_marked_private x ≡ true) (sym (moved-within v e w)) (simp t marked)
      | inr same ↦ let u = (text_eqb_iff e.path name).1 same in cc (u, t)
    ]
  ]

pub rename_normalized-private :
    (now : ℕ) (name target : Text) (owner : Bool) (m : Manifest) {m' : Manifest} (p : Text)
    → rename_normalized now name target owner m ≡ ok m'
    → is_within p name ≡ true
    → is_private p m.entries ≡ true
    → is_private (target ++ drop (length name) p) m'.entries ≡ true
unfolding move_entries visibility_of
rename_normalized-private now name target owner m {m'} p h inside secret =
    let (made, found, _, grown, same) = rename_normalized-ok now name target owner m h in
    let v = visibility_of name m.entries in
    let move : StoredEntry → StoredEntry = moved now m.revision name target v in
    let p' = target ++ drop (length name) p in
    let carried : (e : StoredEntry)
        → Memᴰ e m.entries
        → is_within e.path name ≡ true
        → is_within p e.path ≡ true
        → is_marked_private (move e) ≡ true
        → is_private p' m'.entries ≡ true =
      λ e there w below marked.
        subst (λ (x : Manifest). is_private p' x.entries ≡ true) same
          (marked-is_private p' (map move made.entries) (move e)
            (Mem-map move made.entries (ensure_each-Mem now (parents target) m e grown there))
            marked
            (subst (λ x. is_within p' x ≡ true) (sym (moved-path now m.revision name target v e w))
              (is_within-moved p e.path name target below w))) in
    let name_private : is_private name m.entries ≡ true → v ≡ private = λ k. rw k refl in
    let (e, there, marked, below) = is_private-marked p m.entries secret in
    elim (Bool-cases (is_within e.path name)) [
      | inl w ↦ carried e there w below (
          moved-marked now m.revision name target v e w (inl marked) (λ k. name_private (
            marked-is_private name m.entries e there marked
              (subst (λ x. is_within x e.path ≡ true) k (is_within_refl e.path)))))
      | inr w ↦
          let above : is_within name e.path ≡ true =
            ground (arith, w, is_within-total p e.path name below inside) in
          let (source, here', at) = find-Mem name m.entries found in
          let own : is_within source.path name ≡ true = rw at (is_within_refl name) in
          carried source here' own (subst (λ x. is_within p x ≡ true) (sym at) inside) (
            moved-marked now m.revision name target v source own (inr at)
              (λ _. name_private (marked-is_private name m.entries e there marked above)))
    ]
