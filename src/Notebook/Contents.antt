-- ===== src/Notebook/Contents.antt =====
-- The contents of the cells that the splice leaves in the editor (src/core/notebookIdentity.ts).
use jupyter_pair_ext.Base.{
  append_empty, ℕ, ◌+◌, ◌-◌, ◌≡◌, refl, sym, ap, ◌∙◌, subst, inl, inr, ◌&&◌, Option, none, some,
  List, [], ◌∷◌, ◌++◌, arith, Bool-cases, ◌==◌, nat_eq, string_eq, length, take, drop,
}
use jupyter_pair_ext.Notebook.{
  CellSnapshot, NotebookSplice, common_start, structures, minimal_notebook_splice,
}
use jupyter_pair_ext.Notebook.Splice.{
  common_start-take, take-drop_between, map-take, map-drop, splice_ends, splice_ends-Trimmed,
  minimal_notebook_splice-eq, apply_splice, apply-minimal_notebook_splice,
}

module _ {Content : Type 0} where
  -- What VS Code's `replaceCells` makes of the editor's cells.
  abbrev pub splice_cells :
      List (CellSnapshot Content) → Option (NotebookSplice Content) → List (CellSnapshot Content)
  splice_cells editor none = editor
  splice_cells editor (some s) =
      take s.start editor ++ (s.cells ++ drop (s.start + s.delete_count) editor)

  -- The result keeps the editor's cells before and behind, which are of the same structure as the
  -- target's there, and between them it has the target's cells with their contents.
  pub record Spliced (editor target result : List (CellSnapshot Content)) : Type 0 where
    pub before : List (CellSnapshot Content)
    pub removed : List (CellSnapshot Content)
    pub behind : List (CellSnapshot Content)
    pub target_before : List (CellSnapshot Content)
    pub inserted : List (CellSnapshot Content)
    pub target_behind : List (CellSnapshot Content)
    pub editor_is : before ++ (removed ++ behind) ≡ editor
    pub target_is : target_before ++ (inserted ++ target_behind) ≡ target
    pub result_is : result ≡ before ++ (inserted ++ behind)
    pub same_before : structures before ≡ structures target_before
    pub same_behind : structures behind ≡ structures target_behind

  structures-append :
      (xs ys : List (CellSnapshot Content)) → structures (xs ++ ys) ≡ structures xs ++ structures ys
  structures-append [] ys = refl
  structures-append (x ∷ xs) ys = ap (◌∷◌ x.structure) (structures-append xs ys)

  structures-append3 :
      (xs ys zs : List (CellSnapshot Content))
      → structures (xs ++ (ys ++ zs)) ≡ structures xs ++ (structures ys ++ structures zs)
  structures-append3 xs ys zs =
      structures-append xs (ys ++ zs) ∙ ap (λ l. structures xs ++ l) (structures-append ys zs)

  Spliced-structures :
      (editor target result : List (CellSnapshot Content))
      → Spliced editor target result
      → structures result ≡ structures target
  Spliced-structures editor target result s =
      ap structures s.result_is
      ∙ structures-append3 s.before s.inserted s.behind
      ∙ ap (λ l. l ++ (structures s.inserted ++ structures s.behind)) s.same_before
      ∙ ap (λ l. structures s.target_before ++ (structures s.inserted ++ l)) s.same_behind
      ∙ sym (structures-append3 s.target_before s.inserted s.target_behind)
      ∙ ap structures s.target_is

  -- Applying the splice of an editor's cells and the shared notebook gives cells of the shared
  -- structure, in order: those that it inserts are the shared notebook's, with their contents, and
  -- all others are the editor's own, before and behind them, with the ids, kinds and languages of
  -- the shared cells in their places.
  pub splice_cells-minimal_notebook_splice :
      (editor target : List (CellSnapshot Content))
      → let result = splice_cells editor (minimal_notebook_splice (structures editor) target) in
        (structures result ≡ structures target) × Spliced editor target result
  splice_cells-minimal_notebook_splice editor target =
      let splice = minimal_notebook_splice (structures editor) target in
      let s : Spliced editor target (splice_cells editor splice) =
        elim (Bool-cases (start == length (structures editor) && start == length target)) [
          | inl e ↦
              let nothing : splice ≡ none =
                minimal_notebook_splice-eq (structures editor) target ∙ rw e refl in
              rw nothing (
                unchanged (
                  subst (λ o. apply_splice (structures editor) o ≡ structures target) nothing
                    (apply-minimal_notebook_splice (structures editor) target)))
          | inr e ↦
              let found : splice ≡ some changed =
                minimal_notebook_splice-eq (structures editor) target ∙ rw e refl in
              rw found spliced
        ] in
      (Spliced-structures editor target (splice_cells editor splice) s, s)
    where
      start : ℕ
      start = common_start (structures editor) (structures target)

      ends : ℕ × ℕ
      ends = splice_ends (structures editor) target

      changed : NotebookSplice Content
      changed = record {
        start = start;
        delete_count = ends.0 - start;
        cells = drop start (take ends.1 target);
      }

      unchanged : structures editor ≡ structures target → Spliced editor target editor
      unchanged h = record {
        before = editor;
        removed = [];
        behind = [];
        target_before = target;
        inserted = [];
        target_behind = [];
        editor_is = append_empty editor;
        target_is = append_empty target;
        result_is = sym (append_empty editor);
        same_before = h;
        same_behind = refl;
      }

      spliced : Spliced editor target (splice_cells editor (some changed))
      spliced =
          let t = splice_ends-Trimmed (structures editor) target in
          let e : start + (ends.0 - start) ≡ ends.0 = omega (arith, t.current_low) in
          record {
            before = take start editor;
            removed = drop start (take ends.0 editor);
            behind = drop ends.0 editor;
            target_before = take start target;
            inserted = drop start (take ends.1 target);
            target_behind = drop ends.1 target;
            editor_is = take-drop_between editor start ends.0 t.current_low;
            target_is = take-drop_between target start ends.1 t.target_low;
            result_is =
                ap (λ n. take start editor ++ (drop start (take ends.1 target) ++ drop n editor)) e;
            same_before =
                map-take (λ (c : CellSnapshot Content). c.structure) start editor
                ∙ common_start-take (structures editor) (structures target)
                ∙ sym (map-take (λ (c : CellSnapshot Content). c.structure) start target);
            same_behind =
                map-drop (λ (c : CellSnapshot Content). c.structure) ends.0 editor
                ∙ t.agree
                ∙ sym (map-drop (λ (c : CellSnapshot Content). c.structure) ends.1 target);
          }
