-- ===== src/Workspace/Listing.antt =====
-- What a snapshot of a persistent workspace shows (src/vps/persistentStorage.ts, `snapshot`).
use jupyter_pair_ext.Base.{
  ◌≡◌, refl, sym, ap, ◌∙◌, subst, inl, inr, Bool, true, false, not, List, [], ◌∷◌, map, arith,
  Bool-cases, nat_eq, string_eq, filter,
}
use mathlib.Core.List.{Memᴰ}
use mathlib.Core.List.Memᴰ.{head, tail}
use jupyter_pair_ext.Workspace.{public, StoredEntry, Manifest, is_private, visibility_of}
use jupyter_pair_ext.Workspace.Operations.{FileEntry, snapshot}

module _ {ℓ} {A : Type ℓ} where
  unfilter : (p : A → Bool) (xs : List A) {x : A} → Memᴰ x (filter p xs) → Memᴰ x xs × (p x ≡ true)
  unfilter p [] m = elim m [ ]
  unfilter p (y ∷ xs) {x} m = elim (Bool-cases (p y)) [
    | inr f ↦
        let m' : Memᴰ x (filter p xs) = rw f at m in
        let (there, t) = unfilter p xs m' in (tail there, t)
    | inl t ↦
        let m' : Memᴰ x (y ∷ filter p xs) = rw t at m in
        elim m' [
          | head e ↦ (head e, subst (λ z. p z ≡ true) (sym e) t)
          | tail n ↦ let (there, h) = unfilter p xs n in (tail there, h)
        ]
  ]

module _ {ℓ κ} {A : Type ℓ} {B : Type κ} where
  unmap : (f : A → B) (xs : List A) {y : B} → Memᴰ y (map f xs) → (x : A) × Memᴰ x xs × (y ≡ f x)
  unmap f [] m = elim m [ ]
  unmap f (x ∷ xs) (head e) = (x, head refl, e)
  unmap f (x ∷ xs) (tail m) = let (z, there, e) = unmap f xs m in (z, tail there, e)

-- Every line of a member's snapshot is of an entry that is not private, with its path, and says
-- that it is public. Sorting adds no line.
pub snapshot-public :
    (locale_sort : List FileEntry → List FileEntry) (m : Manifest) (f : FileEntry)
    → ((lines : List FileEntry) (line : FileEntry)
        → Memᴰ line (locale_sort lines)
        → Memᴰ line lines)
    → Memᴰ f (snapshot locale_sort false m)
    → (e : StoredEntry) × Memᴰ e m.entries
      × (f.path ≡ e.path)
      × (is_private f.path m.entries ≡ false)
      × (f.visibility ≡ public)
unfolding snapshot visibility_of
snapshot-public locale_sort m f sorted shown =
    let (e, there, same) = unmap _ _ (sorted _ f shown) in
    let (stored, passed) =
      unfilter (λ (e : StoredEntry). not (is_private e.path m.entries)) m.entries there in
    let hidden : is_private e.path m.entries ≡ false = ground (arith, passed) in
    let at : f.path ≡ e.path = ap (λ (x : FileEntry). x.path) same in
    (
      e,
      stored,
      at,
      subst (λ p. is_private p m.entries ≡ false) (sym at) hidden,
      ap (λ (x : FileEntry). x.visibility) same ∙ rw hidden refl,
    )
