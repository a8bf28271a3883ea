-- ===== src/Notebook/Minimal.antt =====
-- No single splice does the same with fewer cells deleted or inserted.
use jupyter_pair_ext.Base.{
  ℕ, zero, suc, ◌+◌, ◌-◌, ◌≤◌, ◌<◌, ◌≡◌, refl, sym, ap, ◌∙◌, ◌⊎◌, inl, inr, true, false, ◌&&◌,
  Option, none, some, List, [], ◌∷◌, ◌++◌, arith, dec_le, leb, Bool-cases, nat_eq, string_eq,
  length, get_elem?, take, drop, length-append, length-take, length-drop, length-map,
}
use mathlib.Core.List.{append_assoc}
use jupyter_pair_ext.Notebook.{
  Structure, CellSnapshot, NotebookSplice, common_start, same_cells, trim_end, structures,
  minimal_notebook_splice,
}
use jupyter_pair_ext.Notebook.Splice.{
  same_structure_refl, common_start-bound, splice_ends, minimal_notebook_splice-eq, apply_splice,
  apply-minimal_notebook_splice,
}

common_start-max :
    (current target : List Structure) (k : ℕ)
    → k ≤ length current
    → take k current ≡ take k target
    → k ≤ common_start current target
unfolding common_start
common_start-max current target zero h e = omega arith
common_start-max [] target (suc k) h e = elim h [ ]
common_start-max (c ∷ current) [] (suc k) h e = cc
common_start-max (c ∷ current) (t ∷ target) (suc k) h e =
    let same : c ≡ t = cc in
    rw (sym same, same_structure_refl c)
      (omega (arith, common_start-max current target k (omega arith) cc))

-- Where the second loop stops.
abbrev Stops : List Structure → List Structure → ℕ → ℕ → ℕ → Type 0
Stops current target start ce te =
    (ce ≤ start)
    ⊎ (te ≤ start)
    ⊎ ((1 ≤ ce)
        × (1 ≤ te)
        × (same_cells (get_elem? current (ce - 1)) (get_elem? target (te - 1)) ≡ false))

trim_end-Stops :
    (current target : List Structure) (start ce te : ℕ)
    → let (ce', te') = trim_end current target start ce te in
      Stops current target start ce' te' × (ce' + te ≡ ce + te') × (ce' ≤ ce)
unfolding trim_end
trim_end-Stops current target start (suc ce) (suc te) =
    elim (Bool-cases
      ((leb start ce && leb start te) && same_cells (get_elem? current ce) (get_elem? target te))) [
        | inl e ↦
            let (stops, even, low) = trim_end-Stops current target start ce te in
            rw e (stops, omega (arith, even), omega (arith, low))
        | inr e ↦
            rw e (stop (Bool-cases (leb start ce && leb start te)) e, omega arith, omega arith)
      ]
  where
    stop :
        ((leb start ce && leb start te) ≡ true) ⊎ ((leb start ce && leb start te) ≡ false)
        → ((leb start ce && leb start te)
            && same_cells (get_elem? current ce) (get_elem? target te))
          ≡ false
        → Stops current target start (suc ce) (suc te)
    stop (inl t) e =
        let i : suc ce - 1 ≡ ce = omega arith in
        let j : suc te - 1 ≡ te = omega arith in
        inr (inr (omega arith, omega arith, rw (i, j) (ground arith)))
    stop (inr f) e = ground arith
trim_end-Stops current target start zero te = (inl (omega arith), omega arith, omega arith)
trim_end-Stops current target start (suc ce) zero =
    (inr (inl (omega arith)), omega arith, omega arith)

module _ {ℓ} {A : Type ℓ} where
  get-drop : (xs : List A) (k i : ℕ) → get_elem? (drop k xs) i ≡ get_elem? xs (k + i)
  get-drop xs zero i = let e : zero + i ≡ i = omega arith in rw e refl
  get-drop [] (suc k) i = refl
  get-drop (x ∷ xs) (suc k) i =
      let e : suc k + i ≡ suc (k + i) = omega arith in rw e (get-drop xs k i)

  get-append : (xs ys : List A) (i : ℕ) → get_elem? (xs ++ ys) (length xs + i) ≡ get_elem? ys i
  get-append [] ys i = let e : zero + i ≡ i = omega arith in rw e refl
  get-append (x ∷ xs) ys i =
      let e : suc (length xs) + i ≡ suc (length xs + i) = omega arith in rw e (get-append xs ys i)

  take-append_le : (xs ys : List A) (k : ℕ) → k ≤ length xs → take k (take k xs ++ ys) ≡ take k xs
  take-append_le xs ys zero h = refl
  take-append_le [] ys (suc k) h = elim h [ ]
  take-append_le (x ∷ xs) ys (suc k) h = ap (◌∷◌ x) (take-append_le xs ys k (omega arith))

  get-some : (xs : List A) (i : ℕ) → i < length xs → (x : A) × (get_elem? xs i ≡ some x)
  get-some [] i h = elim h [ ]
  get-some (x ∷ xs) zero h = (x, refl)
  get-some (x ∷ xs) (suc i) h = get-some xs i (omega arith)

same_cells_refl : (o : Option Structure) {s : Structure} → o ≡ some s → same_cells o o ≡ true
unfolding same_cells
same_cells_refl (some a) h = same_structure_refl a
same_cells_refl none h = cc

module _ {Content : Type 0} (current : List Structure) (target : List (CellSnapshot Content))
    (other : NotebookSplice Content) (inside : other.start + other.delete_count ≤ length current)
    (works : apply_splice current (some other) ≡ structures target) where
  shared : List Structure
  shared = structures target

  kept : List Structure
  kept = drop (other.start + other.delete_count) current

  lengths : length current + length other.cells ≡ length target + other.delete_count
  unfolding kept
  lengths = omega (
    arith,
    ap length works,
    length-append (take other.start current) (structures other.cells ++ kept),
    length-append (structures other.cells) kept,
    length-take other.start current,
    length-drop (other.start + other.delete_count) current,
    length-map (λ (c : CellSnapshot Content). c.structure) other.cells,
    length-map (λ (c : CellSnapshot Content). c.structure) target,
  )

  starts_before : other.start ≤ common_start current shared
  unfolding shared kept
  starts_before = common_start-max current shared other.start (omega arith) (
      sym (take-append_le current (structures other.cells ++ kept) other.start (omega arith))
      ∙ ap (take other.start) works)

  -- behind the other splice the two notebooks agree, cell by cell from the end
  agree_behind :
      (i j : ℕ)
      → other.start + other.delete_count ≤ i
      → i + length target ≡ j + length current
      → get_elem? current i ≡ get_elem? shared j
  unfolding shared kept
  agree_behind i j h e =
      let before = take other.start current ++ structures other.cells in
      let k = i - (other.start + other.delete_count) in
      let at_i : other.start + other.delete_count + k ≡ i = omega arith in
      let size : length before ≡ other.start + length other.cells = omega (
        arith,
        length-append (take other.start current) (structures other.cells),
        length-take other.start current,
        length-map (λ (c : CellSnapshot Content). c.structure) other.cells,
      ) in
      let at_j : length before + k ≡ j = omega (arith, lengths, size) in
      let whole_target : before ++ kept ≡ structures target =
        append_assoc (take other.start current) (structures other.cells) kept ∙ works in
      rw (← at_i, ← at_j, ← whole_target)
        (sym (get-drop current (other.start + other.delete_count) k)
          ∙ sym (get-append before kept k))

  ends : ℕ × ℕ
  ends = splice_ends current target

  deletes_less : ends.0 - common_start current shared ≤ other.delete_count
  unfolding ends splice_ends shared
  deletes_less =
      let (stops, even, low_end) =
        trim_end-Stops current (structures target) (common_start current (structures target))
          (length current) (length target) in
      elim stops [
        | inl low ↦ omega (arith, low)
        | inr (inl low) ↦ omega (arith, low, even, lengths, starts_before)
        | inr (inr (some_c, some_t, differ)) ↦
            elim (dec_le ends.0 (other.start + other.delete_count)) [
              | yes after ↦ omega (arith, after, starts_before)
              | no before ↦ absurd (clash some_c some_t differ even (omega arith) low_end)
            ]
      ]
    where
      clash :
          1 ≤ ends.0
          → 1 ≤ ends.1
          → same_cells (get_elem? current (ends.0 - 1)) (get_elem? shared (ends.1 - 1)) ≡ false
          → ends.0 + length target ≡ length current + ends.1
          → other.start + other.delete_count < ends.0
          → ends.0 ≤ length current
          → ⊥
      clash some_c some_t differ even before low_end =
          let same : get_elem? current (ends.0 - 1) ≡ get_elem? shared (ends.1 - 1) =
            agree_behind (ends.0 - 1) (ends.1 - 1) (omega arith) (omega arith) in
          let (x, there) = get-some current (ends.0 - 1) (omega arith) in
          cc (differ, rw same at (same_cells_refl (get_elem? current (ends.0 - 1)) there))

splice-ends :
    {Content : Type 0} (current : List Structure) (target : List (CellSnapshot Content))
    {s : NotebookSplice Content}
    → minimal_notebook_splice current target ≡ some s
    → (s.start ≡ common_start current (structures target))
      × (s.delete_count ≡ (splice_ends current target).0 - common_start current (structures target))
splice-ends current target h =
    let e = sym (minimal_notebook_splice-eq current target) ∙ h in ground (arith, e)

-- The splice lies inside the editor's notebook, and any other splice that also turns it into the
-- shared one deletes at least as many cells and inserts at least as many.
pub minimal_notebook_splice-minimal :
    {Content : Type 0} (current : List Structure) (target : List (CellSnapshot Content))
    (s other : NotebookSplice Content)
    → minimal_notebook_splice current target ≡ some s
    → other.start + other.delete_count ≤ length current
    → apply_splice current (some other) ≡ structures target
    → (s.start + s.delete_count ≤ length current)
      × (s.delete_count ≤ other.delete_count)
      × (length s.cells ≤ length other.cells)
unfolding splice_ends ends shared
minimal_notebook_splice-minimal current target s other h inside works =
    let (at_start, deleted) = splice-ends current target h in
    let less = deletes_less current target other inside works in
    let (_, _, low) =
      trim_end-Stops current (structures target) (common_start current (structures target))
        (length current) (length target) in
    let bound = (common_start-bound current (structures target)).0 in
    let fewer : s.delete_count ≤ other.delete_count = rw deleted less in
    let within : s.start + s.delete_count ≤ length current =
      omega (arith, at_start, deleted, low, bound) in
    let own : apply_splice current (some s) ≡ structures target =
      rw h at (apply-minimal_notebook_splice current target) in
    (
      within,
      fewer,
      omega (
        arith,
        lengths current target s within own,
        lengths current target other inside works,
        fewer,
      ),
    )
