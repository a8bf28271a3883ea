-- ===== src/NotebookOutputs.antt =====
-- The outputs that a cell keeps of a run on the server: src/vps/persistentNotebookOutputs.ts. An
-- event is first read as the change that it makes, and the change is then made. The source keeps
-- references to the display outputs of each id; here they are positions, which stay while
-- outputs are only added and changed in place.
pub mod Merged
pub mod Displays
use jupyter_pair_ext.Base.{
  ℕ, zero, suc, ◌+◌, ◌-◌, ◌*◌, ◌/◌, ◌%◌, ◌^◌, ◌≤◌, ◌<◌, min, max, String, ◌≡◌, refl, sym, ap, ◌∙◌,
  subst, ◌≡⟨◌⟩◌, ◌∎, ◌≢◌, ◌↔◌, ◌⊎◌, inl, inr, Bool, true, false, not, ◌&&◌, ◌||◌, Option, none,
  some, List, [], ◌∷◌, ◌++◌, map, reverse, arith, dec_lt, dec_le, ℕ_discrete, str_eq, eq_iff, ltb,
  leb, nat_eqb, if◌then◌else◌, ltb→lt, lt→ltb, leb→le, le→leb, nat_eqb_iff, tests, Bool-cases,
  Option-cases, Eq, ◌==◌, nat_eq, string_eq, Result, Result-cases, ok, err, ◌>>=◌, ◌>>◌, throw_if,
  is_some, or_else, beq_refl, beq_false, bind-ok, throw_if-ok, length, get_elem?, take, drop, all,
  any, filter, find, length-append, length-reverse, take-append-drop, take-append, drop-append,
  length-take, length-drop, length-filter-le, length-map, All, All-append, All-filter, sum,
  sum-append, Map, get, put, remove, has, get-put, get-remove, length-put, length-remove-le,
  length-remove-lt,
}
use jupyter_pair_ext.Base.Js.{
  Number, whole, not_whole, max_safe_integer, is_safe_integer, safe_natural?, Value, undefined,
  null, bool, num, str, arr, obj, Items, nil, cons, Fields, end, field, get_field, natural_value?,
  codes, is_digit, is_letter, is_id_character, matches_id,
}
use jupyter_pair_ext.Base.Codes.{Text}

pub data StreamName : Type 0 where
  stdout stderr : StreamName

pub data Output : Type 0 where
  stream : StreamName → Text → Output
  display_data : Fields → Fields → Output
  execute_result : Fields → Fields → Option ℕ → Output
  error : Text → Text → List Text → Output

-- The variables of `persistentNotebookOutputs`.
pub record Reduction : Type 0 where
  pub outputs : List Output
  pub displays : Map String (List ℕ)
  pub clear_pending : Bool
  pub execution_count : Option ℕ

-- What one event does.
pub data Change : Type 0 where
  unchanged cleared clear_deferred : Change
  counted : Option ℕ → Change
  appended : Output → Change
  displayed : Output → Option String → Option (Option ℕ) → Change
  updated : String → Fields → Fields → Change

abbrev pub is_str : String → Value → Bool
is_str s (str t) = s == t
is_str s v = false

abbrev pub is_true : Value → Bool
is_true (bool b) = b
is_true v = false

abbrev pub object : Value → Option Fields
object (obj fs) = some fs
object v = none

abbrev string? : Value → Option String
string? (str s) = some s
string? v = none

-- `count`: `none` for `undefined`, `some none` for `null`
abbrev count_from : Option ℕ → Option (Option ℕ)
count_from none = none
count_from (some n) = some (some n)

abbrev pub count : Value → Option (Option ℕ)
count null = some none
count (num n) = count_from (safe_natural? n)
count v = none

-- the lines of an array, `none` where one of them is not a string
abbrev before_lines : Value → Option Text → Option Text
before_lines (str s) (some rest) = some (codes s ++ rest)
before_lines v rest = none

unfoldable pub join_lines : Items → Option Text
join_lines nil = some []
join_lines (cons v rest) = before_lines v (join_lines rest)

-- `text`
abbrev pub text : Value → Option Text
text (str s) = some (codes s)
text (arr lines) = join_lines lines
text v = none

abbrev strings_before : Value → List Text → List Text
strings_before (str s) rest = codes s ∷ rest
strings_before v rest = rest

unfoldable pub strings : Items → List Text
strings nil = []
strings (cons v rest) = strings_before v (strings rest)

abbrev text_or : Text → Value → Text
text_or default (str s) = codes s
text_or default v = default

abbrev traceback_of : Value → List Text
traceback_of (arr lines) = strings lines
traceback_of v = []

abbrev ends_with_newline : Text → Bool
ends_with_newline [] = false
ends_with_newline (c ∷ []) = nat_eqb c 10
ends_with_newline (c ∷ d ∷ cs) = ends_with_newline (d ∷ cs)

unfoldable pub channel_error : Value → Output
channel_error message =
    let said = text_or (codes "Jupyter output was omitted by the transport limit.") message in
    stream stderr
      (codes "Pair Notebook: " ++ said ++ (if ends_with_newline said then [] else 10 ∷ []))

abbrev pub stream_name : Value → Option StreamName
stream_name v =
    if is_str "stdout" v then some stdout else if is_str "stderr" v then some stderr else none

abbrev pub stream_change : Option Text → Option StreamName → Change
stream_change (some value) (some name) = appended (stream name value)
stream_change none name = unchanged
stream_change (some value) none = unchanged

abbrev pub display_id : Option Fields → Option String
display_id none = none
display_id (some transient) = string? (get_field "display_id" transient)

abbrev pub update_change : Option String → Fields → Fields → Change
update_change none shown metadata = unchanged
update_change (some id) shown metadata = updated id shown metadata

abbrev pub fields_or_empty : Option Fields → Fields
fields_or_empty none = end
fields_or_empty (some fs) = fs

abbrev pub count_or_null : Option (Option ℕ) → Option ℕ
count_or_null none = none
count_or_null (some value) = value

-- the three messages with display data
unfoldable pub display_change : Value → Fields → Change
display_change kind content =
    let shown = fields_or_empty (object (get_field "data" content)) in
    let metadata = fields_or_empty (object (get_field "metadata" content)) in
    let id = display_id (object (get_field "transient" content)) in
    let value = count (get_field "execution_count" content) in
    if is_str "update_display_data" kind
    then update_change id shown metadata
    else if is_str "display_data" kind
    then displayed (display_data shown metadata) id none
    else displayed (execute_result shown metadata (count_or_null value)) id value

unfoldable pub error_output : Fields → Output
error_output content =
    error (text_or (codes "Error") (get_field "ename" content))
      (text_or [] (get_field "evalue" content)) (traceback_of (get_field "traceback" content))

-- a message of the kernel
unfoldable pub read_message : Value → Fields → Change
read_message kind content =
    if is_str "clear_output" kind
    then if is_true (get_field "wait" content) then clear_deferred else cleared
    else if is_str "stream" kind
    then stream_change (text (get_field "text" content)) (stream_name (get_field "name" content))
    else if is_str "display_data" kind
        || is_str "execute_result" kind
        || is_str "update_display_data" kind
    then display_change kind content
    else if is_str "error" kind
    then appended (error_output content)
    else unchanged

abbrev pub complete_change : Option (Option ℕ) → Change
complete_change none = unchanged
complete_change (some value) = counted value

abbrev pub message_change : Value → Option Fields → Change
message_change kind none = unchanged
message_change kind (some content) = read_message kind content

unfoldable pub read_event : Fields → Change
read_event event =
    let type = get_field "type" event in
    if is_str "complete" type
    then complete_change (count (get_field "executionCount" event))
    else if is_str "channelError" type
    then appended (channel_error (get_field "message" event))
    else if is_str "iopub" type
    then message_change (get_field "messageType" event) (object (get_field "content" event))
    else unchanged

abbrev pub is_same_name : StreamName → StreamName → Bool
is_same_name stdout stdout = true
is_same_name stderr stderr = true
is_same_name stdout stderr = false
is_same_name stderr stdout = false

-- `clear`
abbrev pub clear : Reduction → Reduction
clear r = record r { outputs = []; displays = []; clear_pending = false }

-- an output after the previous one
abbrev pub merge : Output → Output → List Output
merge (stream n a) (stream m b) =
    if is_same_name n m then stream n (a ++ b) ∷ [] else stream n a ∷ stream m b ∷ []
merge (stream n a) (display_data d f) = stream n a ∷ display_data d f ∷ []
merge (stream n a) (execute_result d f c) = stream n a ∷ execute_result d f c ∷ []
merge (stream n a) (error e v t) = stream n a ∷ error e v t ∷ []
merge (display_data d f) o = display_data d f ∷ o ∷ []
merge (execute_result d f c) o = execute_result d f c ∷ o ∷ []
merge (error e v t) o = error e v t ∷ o ∷ []

-- the outputs with one more
unfoldable pub push : List Output → Output → List Output
push [] o = o ∷ []
push (x ∷ []) o = merge x o
push (x ∷ y ∷ xs) o = x ∷ push (y ∷ xs) o

-- `append`
abbrev pub due : Reduction → Reduction
due r = if r.clear_pending then clear r else r

abbrev pub push_to : Output → Reduction → Reduction
push_to o r = record r { outputs = push r.outputs o }

unfoldable pub append : Output → Reduction → Reduction
append o r = push_to o (due r)

abbrev pub set_data : Fields → Fields → Output → Output
set_data d f (stream n t) = stream n t
set_data d f (display_data e g) = display_data d f
set_data d f (execute_result e g c) = execute_result d f c
set_data d f (error e v t) = error e v t

unfoldable pub update_at : Fields → Fields → ℕ → List Output → List Output
update_at d f i [] = []
update_at d f zero (x ∷ xs) = set_data d f x ∷ xs
update_at d f (suc i) (x ∷ xs) = x ∷ update_at d f i xs

unfoldable pub update_all : Fields → Fields → List ℕ → List Output → List Output
update_all d f [] xs = xs
update_all d f (i ∷ is) xs = update_all d f is (update_at d f i xs)

abbrev pub positions : Option (List ℕ) → List ℕ
positions none = []
positions (some is) = is

-- the display, once appended, is the last output
unfoldable pub register : Option String → Reduction → Reduction
register none r = r
register (some id) r = record r {
  displays = put id (positions (get id r.displays) ++ ((length r.outputs - 1) ∷ [])) r.displays;
}

abbrev pub recount : Option (Option ℕ) → Reduction → Reduction
recount none r = r
recount (some value) r = record r { execution_count = value }

unfoldable pub apply_change : Change → Reduction → Reduction
apply_change unchanged r = r
apply_change cleared r = clear r
apply_change clear_deferred r = record r { clear_pending = true }
apply_change (counted value) r = record r { execution_count = value }
apply_change (appended o) r = append o r
apply_change (displayed o id value) r = register id (append o (recount value r))
apply_change (updated id d f) r = record r {
  outputs = update_all d f (positions (get id r.displays)) r.outputs;
}

abbrev pub nothing_yet : Reduction
nothing_yet = record { outputs = []; displays = []; clear_pending = false; execution_count = none }

unfoldable pub reduce : List Fields → Reduction → Reduction
reduce [] r = r
reduce (event ∷ events) r = reduce events (apply_change (read_event event) r)

-- `persistentNotebookOutputs`
unfoldable pub persistent_notebook_outputs : List Fields → List Output × Option ℕ
persistent_notebook_outputs events =
    let r = reduce events nothing_yet in (r.outputs, r.execution_count)
