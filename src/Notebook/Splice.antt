-- ===== src/Notebook/Splice.antt =====
-- The splice turns the editor's notebook into the shared one.
use jupyter_pair_ext.Base.{
  ℕ, zero, suc, ◌+◌, ◌-◌, ◌≤◌, ◌≡◌, refl, sym, ap, ◌∙◌, inl, inr, true, ◌&&◌, Option, none, some,
  List, [], ◌∷◌, ◌++◌, map, arith, eq_iff, leb, if◌then◌else◌, Bool-cases, ◌==◌, nat_eq, string_eq,
  beq_refl, length, get_elem?, take, drop, take-append-drop, length-map,
}
use jupyter_pair_ext.Notebook.{
  Structure, CellSnapshot, NotebookSplice, same_structure, common_start, same_cells, trim_end,
  structures, minimal_notebook_splice,
}

same_structure-eq : (a b : Structure) → same_structure a b ≡ true → a ≡ b
unfolding same_structure
same_structure-eq a b h = ground (arith, eq_iff a.id b.id, eq_iff a.language b.language)

pub same_structure_refl : (a : Structure) → same_structure a a ≡ true
unfolding same_structure
same_structure_refl a = ground (arith, beq_refl a.id, beq_refl a.language, beq_refl a.kind)

pub common_start-bound :
    (current target : List Structure)
    → (common_start current target ≤ length current) × (common_start current target ≤ length target)
unfolding common_start
common_start-bound [] target = (omega arith, omega arith)
common_start-bound (c ∷ current) [] = (omega arith, omega arith)
common_start-bound (c ∷ current) (t ∷ target) = ground (arith, common_start-bound current target)

pub common_start-take :
    (current target : List Structure)
    → let p = common_start current target in take p current ≡ take p target
unfolding common_start
common_start-take [] target = refl
common_start-take (c ∷ current) [] = refl
common_start-take (c ∷ current) (t ∷ target) = elim (Bool-cases (same_structure c t)) [
  | inl e ↦ rw e (
      ap (◌∷◌ c) (common_start-take current target)
      ∙ ap (λ x. x ∷ take (common_start current target) target) (same_structure-eq c t e))
  | inr e ↦ rw e refl
]

module _ {ℓ} {A : Type ℓ} where
  pub drop-get :
      (xs : List A) (i : ℕ) {x : A} → get_elem? xs i ≡ some x → drop i xs ≡ x ∷ drop (suc i) xs
  drop-get [] i h = cc
  drop-get (y ∷ xs) zero h = ground arith
  drop-get (y ∷ xs) (suc i) h = drop-get xs i h

  pub drop-length : (xs : List A) → drop (length xs) xs ≡ []
  drop-length [] = refl
  drop-length (x ∷ xs) = drop-length xs

same_cells-some :
    (a b : Option Structure) → same_cells a b ≡ true → (s : Structure) × (a ≡ some s) × (b ≡ some s)
unfolding same_cells
same_cells-some (some a) (some b) h = (a, refl, ap some (sym (same_structure-eq a b h)))
same_cells-some none b h = cc
same_cells-some (some a) none h = cc

-- What the second loop keeps: both ends stay at or above `start`, as far from the ends of the
-- notebooks as each other, and the notebooks agree behind them.
pub record Trimmed (current target : List Structure) (start ce te : ℕ) : Type 0 where
  pub current_low : start ≤ ce
  pub target_low : start ≤ te
  pub agree : drop ce current ≡ drop te target

pub trim_end-Trimmed :
    (current target : List Structure) (start ce te : ℕ)
    → Trimmed current target start ce te
    → let (ce', te') = trim_end current target start ce te in Trimmed current target start ce' te'
unfolding trim_end
trim_end-Trimmed current target start (suc ce) (suc te) h =
    elim (Bool-cases
      ((leb start ce && leb start te) && same_cells (get_elem? current ce) (get_elem? target te))) [
        | inl e ↦ rw e (
            trim_end-Trimmed current target start ce te
              (step (ground arith) (ground arith) (ground arith)))
        | inr e ↦ rw e h
      ]
  where
    step :
        start ≤ ce
        → start ≤ te
        → same_cells (get_elem? current ce) (get_elem? target te) ≡ true
        → Trimmed current target start ce te
    step low low' same =
        let (s, a, b) = same_cells-some _ _ same in
        record {
          current_low = low;
          target_low = low';
          agree = drop-get current ce a ∙ ap (◌∷◌ s) h.agree ∙ sym (drop-get target te b);
        }
trim_end-Trimmed current target start zero te h = h
trim_end-Trimmed current target start (suc ce) zero h = h

module _ {ℓ} {A : Type ℓ} where
  take-all : (xs : List A) (n : ℕ) → length xs ≤ n → take n xs ≡ xs
  take-all [] zero h = refl
  take-all [] (suc n) h = refl
  take-all (x ∷ xs) zero h = elim h [ ]
  take-all (x ∷ xs) (suc n) h = ap (◌∷◌ x) (take-all xs n (omega arith))

  pub take-drop_between :
      (xs : List A) (p q : ℕ) → p ≤ q → take p xs ++ (drop p (take q xs) ++ drop q xs) ≡ xs
  take-drop_between xs zero q h = take-append-drop q xs
  take-drop_between [] (suc p) zero h = elim h [ ]
  take-drop_between [] (suc p) (suc q) h = refl
  take-drop_between (x ∷ xs) (suc p) zero h = elim h [ ]
  take-drop_between (x ∷ xs) (suc p) (suc q) h = ap (◌∷◌ x) (take-drop_between xs p q (omega arith))

  pub map-take {κ} :
      {B : Type κ} (f : A → B) (n : ℕ) (xs : List A) → map f (take n xs) ≡ take n (map f xs)
  map-take f zero xs = refl
  map-take f (suc n) [] = refl
  map-take f (suc n) (x ∷ xs) = ap (◌∷◌ (f x)) (map-take f n xs)

  pub map-drop {κ} :
      {B : Type κ} (f : A → B) (n : ℕ) (xs : List A) → map f (drop n xs) ≡ drop n (map f xs)
  map-drop f zero xs = refl
  map-drop f (suc n) [] = refl
  map-drop f (suc n) (x ∷ xs) = map-drop f n xs

module _ {Content : Type 0} where
  -- What VS Code's `replaceCells` makes of the cells' structures.
  abbrev pub apply_splice : List Structure → Option (NotebookSplice Content) → List Structure
  apply_splice current none = current
  apply_splice current (some s) =
      take s.start current ++ (structures s.cells ++ drop (s.start + s.delete_count) current)

  unfoldable pub splice_ends :
      (current : List Structure) (target : List (CellSnapshot Content)) → ℕ × ℕ
  splice_ends current target =
      trim_end current (structures target) (common_start current (structures target))
        (length current) (length target)

  pub splice_ends-Trimmed :
      (current : List Structure) (target : List (CellSnapshot Content))
      → let (ce, te) = splice_ends current target in
        Trimmed current (structures target) (common_start current (structures target)) ce te
  unfolding splice_ends
  splice_ends-Trimmed current target =
      let (low, low') = common_start-bound current (structures target) in
      trim_end-Trimmed current (structures target) _ (length current) (length target) (record {
        current_low = low;
        target_low =
            omega (arith, low', length-map (λ (c : CellSnapshot Content). c.structure) target);
        agree =
            drop-length current
            ∙ sym (drop-length (structures target))
            ∙ ap (λ n. drop n (structures target))
                (length-map (λ (c : CellSnapshot Content). c.structure) target);
      })

  pub minimal_notebook_splice-eq :
      (current : List Structure) (target : List (CellSnapshot Content))
      → let start = common_start current (structures target) in
        let (ce, te) = splice_ends current target in
        minimal_notebook_splice current target ≡ (
          if start == length current && start == length target
          then none
          else some (record {
            start = start;
            delete_count = ce - start;
            cells = drop start (take te target);
          }))
  unfolding minimal_notebook_splice splice_ends
  minimal_notebook_splice-eq current target = refl

  -- Applying the splice gives the structures of the shared notebook's cells, in order, whatever the
  -- notebooks are.
  pub apply-minimal_notebook_splice :
      (current : List Structure) (target : List (CellSnapshot Content))
      → apply_splice current (minimal_notebook_splice current target) ≡ structures target
  apply-minimal_notebook_splice current target =
      rw (minimal_notebook_splice-eq current target)
        (elim (Bool-cases (start == length current && start == length target)) [
          | inl e ↦ rw e (same (ground arith) (ground arith))
          | inr e ↦ rw e differ
        ])
    where
      start : ℕ
      start = common_start current (structures target)

      ends : ℕ × ℕ
      ends = splice_ends current target

      prefix : take start current ≡ take start (structures target)
      prefix = common_start-take current (structures target)

      same : start ≡ length current → start ≡ length target → current ≡ structures target
      same a b =
          sym (take-all current start (omega (arith, a)))
          ∙ prefix
          ∙ take-all (structures target) start
              (omega (arith, b, length-map (λ (c : CellSnapshot Content). c.structure) target))

      differ :
          take start current
            ++ (structures (drop start (take ends.1 target))
                ++ drop (start + (ends.0 - start)) current)
          ≡ structures target
      differ =
          let t = splice_ends-Trimmed current target in
          let e : start + (ends.0 - start) ≡ ends.0 = omega (arith, t.current_low) in
          rw
            (
              e,
              prefix,
              map-drop (λ (c : CellSnapshot Content). c.structure),
              map-take (λ (c : CellSnapshot Content). c.structure),
              t.agree,
            )
            (take-drop_between (structures target) start ends.1 t.target_low)
