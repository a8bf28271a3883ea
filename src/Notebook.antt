-- ===== src/Notebook.antt =====
-- src/core/notebookIdentity.ts: the identity of notebook cells and the splice that brings an
-- editor's notebook to the shared one.
pub mod Splice
pub mod Contents
pub mod Minimal
pub mod Registry
use jupyter_pair_ext.Base.{
  ℕ, suc, ◌-◌, String, Bool, false, ◌&&◌, Option, none, some, List, ◌∷◌, map, leb, if◌then◌else◌,
  ◌==◌, nat_eq, string_eq, ◌>>=◌, ◌>>◌, length, get_elem?, take, drop,
}

-- `NotebookStructureCell`
pub record Structure : Type 0 where
  pub id : String
  pub kind : ℕ
  pub language : String

-- `CellSnapshot`: the structure, and the rest (source, metadata, outputs, execution) as one
-- value of any type, which the splice only passes on.
pub record CellSnapshot (Content : Type 0) : Type 0 where
  pub structure : Structure
  pub content : Content

pub record NotebookSplice (Content : Type 0) : Type 0 where
  pub start : ℕ
  pub delete_count : ℕ
  pub cells : List (CellSnapshot Content)

unfoldable pub same_structure : Structure → Structure → Bool
same_structure a b = a.id == b.id && a.kind == b.kind && a.language == b.language

-- the first loop: how far the two notebooks agree from the start
unfoldable pub common_start : List Structure → List Structure → ℕ
common_start (c ∷ current) (t ∷ target) =
    let rest = common_start current target in if same_structure c t then suc rest else 0
common_start _ _ = 0

-- `!currentCell || !targetCell || !sameStructure(currentCell, targetCell)`, negated
unfoldable pub same_cells : Option Structure → Option Structure → Bool
same_cells (some c) (some t) = same_structure c t
same_cells _ _ = false

-- the second loop, which moves both ends down while they stay above `start` and agree
unfoldable pub trim_end : List Structure → List Structure → ℕ → ℕ → ℕ → ℕ × ℕ
trim_end current target start (suc current_end) (suc target_end) =
    let trimmed = trim_end current target start current_end target_end in
    if (leb start current_end && leb start target_end)
      && same_cells (get_elem? current current_end) (get_elem? target target_end)
    then trimmed
    else (suc current_end, suc target_end)
trim_end current target start current_end target_end = (current_end, target_end)

module _ {Content : Type 0} where
  abbrev pub structures : List (CellSnapshot Content) → List Structure
  structures = map (λ cell. cell.structure)

  unfoldable pub minimal_notebook_splice :
      List Structure → List (CellSnapshot Content) → Option (NotebookSplice Content)
  minimal_notebook_splice current target =
      let start = common_start current (structures target) in
      let (current_end, target_end) =
        trim_end current (structures target) start (length current) (length target) in
      if start == length current && start == length target
      then none
      else some (record {
        start = start;
        delete_count = current_end - start;
        cells = drop start (take target_end target);
      })
