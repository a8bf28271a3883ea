-- ===== src/Tests/Frames.antt =====
-- Frames, transfers and notebooks (src/core/wire.ts, src/core/transfer.ts,
-- src/core/notebookIdentity.ts).
use jupyter_pair_ext.Base.{
  ℕ, ◌≤◌, ◌<◌, String, ◌≡◌, refl, ◌⊎◌, true, Option, none, some, List, [], ◌∷◌, arith, nat_eqb,
  if◌then◌else◌, nat_eq, string_eq, ok, length, get,
}
use jupyter_pair_ext.Base.Js.{
  Number, whole, not_whole, Value, num, str, Fields, end, field, get_field,
}
use jupyter_pair_ext.Base.Int.{pos, negsuc}
use jupyter_pair_ext.Wire.{
  header_value, encode_frame, decode_frame, is_frame_type, write_u32, max_wire_frame_bytes,
}
use jupyter_pair_ext.Wire.RoundTrip.{decode-encode, decode-Decoded, Decoded}
use jupyter_pair_ext.Transfer.{Shape, validate_incoming_transfer, required_chunks, is_sha256}
use jupyter_pair_ext.Transfer.Chunks.{
  IsValid, validate-IsValid, chunk_bytes, chunk_bytes_lem, chunk_total, chunk_total-size,
}
use jupyter_pair_ext.Notebook.{
  Structure, CellSnapshot, NotebookSplice, structures, minimal_notebook_splice, common_start,
  same_structure, trim_end, same_cells,
}
use jupyter_pair_ext.Notebook.Contents.{splice_cells, Spliced, splice_cells-minimal_notebook_splice}
use jupyter_pair_ext.Notebook.Minimal.{minimal_notebook_splice-minimal}
use jupyter_pair_ext.Notebook.Registry.{
  Registry, all_valid, id_for, known_id, valid_cell_id, id_for_stable,
}

-- A codec that knows one header, {"type": "ping"}.
abbrev stringify : Value → List ℕ
stringify v = 123 ∷ 125 ∷ []

abbrev parse : List ℕ → Option Value
parse cs = some (header_value "ping" end)

abbrev sent : List ℕ
sent = 1 ∷ 0 ∷ 0 ∷ 0 ∷ 2 ∷ 123 ∷ 125 ∷ 7 ∷ 8 ∷ []

sent-encoded : encode_frame stringify parse "ping" end (7 ∷ 8 ∷ []) ≡ ok sent
unfolding encode_frame is_frame_type write_u32
sent-encoded = refl

decode-encode_example :
    decode_frame stringify parse ((1 ∷ 0 ∷ 0 ∷ []) ∷ (0 ∷ 2 ∷ 123 ∷ 125 ∷ 7 ∷ []) ∷ (8 ∷ []) ∷ [])
    ≡ ok (record { frame_type = "ping"; meta = end; payload = 7 ∷ 8 ∷ [] })
decode-encode_example =
    decode-encode stringify parse "ping" end (7 ∷ 8 ∷ [])
      ((1 ∷ 0 ∷ 0 ∷ []) ∷ (0 ∷ 2 ∷ 123 ∷ 125 ∷ 7 ∷ []) ∷ (8 ∷ []) ∷ []) sent-encoded refl refl

decode-Decoded_example :
    Decoded stringify parse sent (record { frame_type = "ping"; meta = end; payload = 7 ∷ 8 ∷ [] })
    × (length sent ≤ max_wire_frame_bytes)
decode-Decoded_example =
    decode-Decoded stringify parse (sent ∷ [])
      (decode-encode stringify parse "ping" end (7 ∷ 8 ∷ []) (sent ∷ []) sent-encoded refl refl)

-- Five bytes in chunks of two.
abbrev digest : String
digest = "0123456789abcdef0123456789abcdef0123456789abcdef0123456789abcdef"

abbrev five : Shape
five = record { size = 5; chunk_size = 2; expected_chunks = 3; hash = digest }

five-IsValid : IsValid five
unfolding is_sha256 required_chunks
five-IsValid = record {
  size_bound = omega arith;
  chunk_positive = omega arith;
  chunk_bound = omega arith;
  count = refl;
  count_bound = omega arith;
  hash_valid = refl;
}

chunk_total-size_example : chunk_total five 3 ≡ 5
chunk_total-size_example = chunk_total-size five five-IsValid

chunk_bytes_lem_example :
    ((i : ℕ) × (whole (pos 2) ≡ whole (pos i))
      × (i < 3)
      × ((n : ℕ) × (chunk_bytes five 2 ≡ pos n) × (n ≤ 2) × ((five.size ≡ 0) ⊎ (0 < n))))
    ⊎ (((i : ℕ) → whole (pos 2) ≡ whole (pos i) → 3 ≤ i) × (chunk_bytes five 2 ≡ negsuc 0))
chunk_bytes_lem_example = chunk_bytes_lem five (whole (pos 2)) five-IsValid

abbrev to_number : Value → Number
to_number (num n) = n
to_number _ = not_whole

abbrev lower_text : Value → String
lower_text (str s) = s
lower_text _ = ""

abbrev offer : Fields
offer = field "size" (num (whole (pos 5))) (
    field "chunkSize" (num (whole (pos 2)))
      (field "chunks" (num (whole (pos 3))) (field "hash" (str digest) end)))

offer-accepted : validate_incoming_transfer to_number lower_text offer 65536 ≡ ok five
unfolding validate_incoming_transfer is_sha256 required_chunks get_field
offer-accepted = refl

validate-IsValid_example : IsValid five
validate-IsValid_example = validate-IsValid to_number lower_text offer 65536 offer-accepted

-- A markdown cell goes and a code cell comes.
abbrev cell : String → ℕ → String → CellSnapshot String
cell id kind content = record {
  structure = record { id = id; kind = kind; language = "python" };
  content = content;
}

abbrev current : List Structure
current = structures (cell "a" 2 "x = 1" ∷ cell "b" 1 "# title" ∷ cell "c" 2 "x" ∷ [])

abbrev target : List (CellSnapshot String)
target = cell "a" 2 "x = 1" ∷ cell "d" 2 "y" ∷ cell "c" 2 "x" ∷ []

abbrev editor : List (CellSnapshot String)
editor = cell "a" 2 "x = 0" ∷ cell "b" 1 "# title" ∷ cell "c" 2 "x" ∷ []

splice_cells-minimal_notebook_splice_example :
    let result = splice_cells editor (minimal_notebook_splice (structures editor) target) in
    (structures result ≡ structures target) × Spliced editor target result
splice_cells-minimal_notebook_splice_example = splice_cells-minimal_notebook_splice editor target

abbrev whole_splice : NotebookSplice String
whole_splice = record { start = 0; delete_count = 3; cells = target }

abbrev small_splice : NotebookSplice String
small_splice = record { start = 1; delete_count = 1; cells = cell "d" 2 "y" ∷ [] }

small_splice-made : minimal_notebook_splice current target ≡ some small_splice
unfolding minimal_notebook_splice common_start same_structure trim_end same_cells
small_splice-made = refl

minimal_notebook_splice-minimal_example : (2 ≤ 3) × (1 ≤ 3) × (1 ≤ 3)
minimal_notebook_splice-minimal_example =
    minimal_notebook_splice-minimal current target small_splice whole_splice small_splice-made
      (omega arith) refl

abbrev registry : Registry
registry = (1, "cell-one") ∷ []

id_for_stable_example :
    let (ids', id) = id_for registry 2 none "cell-two" in
    ((id_for ids' 2 (some "not an id") "cell-three").1 ≡ id)
    × ((known_id ids' 2 (some "not an id")).1 ≡ some id)
    × (get 1 ids' ≡ (if nat_eqb 2 1 then some id else get 1 registry))
    × (all_valid ids' ≡ true)
unfolding all_valid valid_cell_id
id_for_stable_example =
    id_for_stable registry 2 1 none (some "not an id") "cell-two" "cell-three" refl refl refl
