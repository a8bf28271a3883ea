-- ===== src/NotebookOutputs/Displays.antt =====
-- The positions of the display outputs of a run (src/vps/persistentNotebookOutputs.ts).
use jupyter_pair_ext.Base.{
  ℕ, zero, suc, ◌-◌, String, ◌≡◌, refl, sym, ap, ◌∙◌, subst, inl, inr, Bool, true, false, ◌||◌,
  Option, none, some, List, [], ◌∷◌, ◌++◌, arith, if◌then◌else◌, Bool-cases, ◌==◌, nat_eq,
  string_eq, length, all, length-append, get, get-put,
}
use jupyter_pair_ext.Base.Js.{Value, Fields, get_field}
use jupyter_pair_ext.Base.Codes.{Text}
use jupyter_pair_ext.NotebookOutputs.{
  is_true, is_str, fields_or_empty, count_or_null, StreamName, Output, stream, display_data,
  execute_result, error, Reduction, Change, unchanged, cleared, clear_deferred, counted, appended,
  displayed, updated, stream_name, stream_change, text, object, count, display_id, update_change,
  display_change, read_message, complete_change, message_change, channel_error, error_output,
  read_event, clear, merge, push, due, append, set_data, update_at, update_all, positions, register,
  recount, apply_change, nothing_yet, reduce,
}

abbrev is_display : Output → Bool
is_display (stream n t) = false
is_display (display_data d f) = true
is_display (execute_result d f c) = true
is_display (error e v t) = false

unfoldable pub is_display_at : List Output → ℕ → Bool
is_display_at [] i = false
is_display_at (x ∷ xs) zero = is_display x
is_display_at (x ∷ xs) (suc i) = is_display_at xs i

-- the positions are all of display outputs
abbrev pub AreDisplays : List Output → List ℕ → Type 0
AreDisplays xs is = all (is_display_at xs) is ≡ true

AreDisplays-mono :
    (xs ys : List Output) (is : List ℕ)
    → ((i : ℕ) → is_display_at xs i ≡ true → is_display_at ys i ≡ true)
    → AreDisplays xs is
    → AreDisplays ys is
AreDisplays-mono xs ys [] h k = refl
AreDisplays-mono xs ys (i ∷ is) h k =
    let first : is_display_at xs i ≡ true = ground (arith, k) in
    let rest : AreDisplays xs is = ground (arith, k) in
    ground (arith, h i first, AreDisplays-mono xs ys is h rest)

AreDisplays-snoc :
    (xs : List Output) (is : List ℕ) (i : ℕ)
    → AreDisplays xs is
    → is_display_at xs i ≡ true
    → AreDisplays xs (is ++ (i ∷ []))
AreDisplays-snoc xs [] i h k = ground (arith, k)
AreDisplays-snoc xs (j ∷ is) i h k =
    let rest : AreDisplays xs is = ground (arith, h) in
    ground (arith, h, AreDisplays-snoc xs is i rest k)

is_display_at-merge :
    (x o : Output) (i : ℕ) → is_display_at (x ∷ []) i ≡ true → is_display_at (merge x o) i ≡ true
unfolding is_display_at
is_display_at-merge (stream n a) o zero h = cc h
is_display_at-merge (display_data d f) o zero h = refl
is_display_at-merge (execute_result d f c) o zero h = refl
is_display_at-merge (error e v t) o zero h = cc h
is_display_at-merge x o (suc i) h = cc h

is_display_at-push :
    (xs : List Output) (o : Output) (i : ℕ)
    → is_display_at xs i ≡ true
    → is_display_at (push xs o) i ≡ true
unfolding is_display_at push
is_display_at-push [] o i h = cc h
is_display_at-push (x ∷ []) o i h = is_display_at-merge x o i h
is_display_at-push (x ∷ y ∷ xs) o zero h = h
is_display_at-push (x ∷ y ∷ xs) o (suc i) h = is_display_at-push (y ∷ xs) o i h

-- a display output that is pushed is the last
merge-display : (x o : Output) → is_display o ≡ true → merge x o ≡ x ∷ o ∷ []
merge-display (stream n a) (stream m b) h = cc h
merge-display (stream n a) (display_data d f) h = refl
merge-display (stream n a) (execute_result d f c) h = refl
merge-display (stream n a) (error e v t) h = cc h
merge-display (display_data d f) o h = refl
merge-display (execute_result d f c) o h = refl
merge-display (error e v t) o h = refl

push-display : (xs : List Output) (o : Output) → is_display o ≡ true → push xs o ≡ xs ++ (o ∷ [])
unfolding push
push-display [] o h = refl
push-display (x ∷ []) o h = merge-display x o h
push-display (x ∷ y ∷ xs) o h = ap (λ l. x ∷ l) (push-display (y ∷ xs) o h)

is_display_at-end :
    (xs : List Output) (o : Output)
    → is_display o ≡ true
    → is_display_at (xs ++ (o ∷ [])) (length xs) ≡ true
unfolding is_display_at
is_display_at-end [] o h = h
is_display_at-end (x ∷ xs) o h = is_display_at-end xs o h

is_display_at-last :
    (xs : List Output) (o : Output)
    → is_display o ≡ true
    → is_display_at (push xs o) (length (push xs o) - 1) ≡ true
is_display_at-last xs o h =
    let count : length (xs ++ (o ∷ [])) - 1 ≡ length xs =
      omega (arith, length-append xs (o ∷ [])) in
    subst (λ l. is_display_at l (length l - 1) ≡ true) (sym (push-display xs o h))
      (ap (is_display_at (xs ++ (o ∷ []))) count ∙ is_display_at-end xs o h)

is_display-set : (d f : Fields) (x : Output) → is_display (set_data d f x) ≡ is_display x
is_display-set d f (stream n t) = refl
is_display-set d f (display_data e g) = refl
is_display-set d f (execute_result e g c) = refl
is_display-set d f (error e v t) = refl

is_display_at-update :
    (d f : Fields) (j : ℕ) (xs : List Output) (i : ℕ)
    → is_display_at (update_at d f j xs) i ≡ is_display_at xs i
unfolding is_display_at update_at
is_display_at-update d f j [] i = refl
is_display_at-update d f zero (x ∷ xs) zero = is_display-set d f x
is_display_at-update d f zero (x ∷ xs) (suc i) = refl
is_display_at-update d f (suc j) (x ∷ xs) zero = refl
is_display_at-update d f (suc j) (x ∷ xs) (suc i) = is_display_at-update d f j xs i

is_display_at-update_all :
    (d f : Fields) (js : List ℕ) (xs : List Output) (i : ℕ)
    → is_display_at (update_all d f js xs) i ≡ is_display_at xs i
unfolding update_all
is_display_at-update_all d f [] xs i = refl
is_display_at-update_all d f (j ∷ js) xs i =
    is_display_at-update_all d f js (update_at d f j xs) i ∙ is_display_at-update d f j xs i

-- only display outputs are registered
abbrev registers_displays : Change → Bool
registers_displays (displayed o id value) = is_display o
registers_displays unchanged = true
registers_displays cleared = true
registers_displays clear_deferred = true
registers_displays (counted value) = true
registers_displays (appended o) = true
registers_displays (updated id d f) = true

record Registers (c : Change) : Type 0 where
  are_displays : registers_displays c ≡ true

registers : {c : Change} → registers_displays c ≡ true → Registers c
registers h = record { are_displays = h }

if-Registers :
    (b : Bool) (c d : Change) → Registers c → Registers d → Registers (if b then c else d)
if-Registers true c d h k = h
if-Registers false c d h k = k

stream_change-Registers : (t : Option Text) (n : Option StreamName) → Registers (stream_change t n)
stream_change-Registers (some t) (some n) = registers refl
stream_change-Registers none n = registers refl
stream_change-Registers (some t) none = registers refl

update_change-Registers : (id : Option String) (d f : Fields) → Registers (update_change id d f)
update_change-Registers none d f = registers refl
update_change-Registers (some id) d f = registers refl

display_change-Registers :
    (kind : Value) (content : Fields) → Registers (display_change kind content)
unfolding display_change
display_change-Registers kind content =
    let shown = fields_or_empty (object (get_field "data" content)) in
    let metadata = fields_or_empty (object (get_field "metadata" content)) in
    let id = display_id (object (get_field "transient" content)) in
    let value = count (get_field "execution_count" content) in
    let result = execute_result shown metadata (count_or_null value) in
    if-Registers (is_str "update_display_data" kind) (update_change id shown metadata)
      (if is_str "display_data" kind
        then displayed (display_data shown metadata) id none
        else displayed result id value)
      (update_change-Registers id shown metadata)
      (if-Registers (is_str "display_data" kind) (displayed (display_data shown metadata) id none)
        (displayed result id value) (registers refl) (registers refl))

read_message-Registers : (kind : Value) (content : Fields) → Registers (read_message kind content)
unfolding read_message
read_message-Registers kind content =
    let cleared_now =
      if-Registers (is_true (get_field "wait" content)) clear_deferred cleared (registers refl)
        (registers refl) in
    let failed =
      if-Registers (is_str "error" kind) (appended (error_output content)) unchanged
        (registers refl) (registers refl) in
    let printed =
      stream_change-Registers (text (get_field "text" content))
        (stream_name (get_field "name" content)) in
    let shows =
      is_str "display_data" kind
      || is_str "execute_result" kind
      || is_str "update_display_data" kind in
    if-Registers (is_str "clear_output" kind) _ _ cleared_now (
      if-Registers (is_str "stream" kind) _ _ printed
        (if-Registers shows _ _ (display_change-Registers kind content) failed))

complete_change-Registers : (c : Option (Option ℕ)) → Registers (complete_change c)
complete_change-Registers none = registers refl
complete_change-Registers (some c) = registers refl

message_change-Registers : (kind : Value) (c : Option Fields) → Registers (message_change kind c)
message_change-Registers kind none = registers refl
message_change-Registers kind (some c) = read_message-Registers kind c

read_event-Registers : (event : Fields) → Registers (read_event event)
unfolding read_event
read_event-Registers event =
    let type = get_field "type" event in
    let finished = complete_change-Registers (count (get_field "executionCount" event)) in
    let said =
      message_change-Registers (get_field "messageType" event)
        (object (get_field "content" event)) in
    if-Registers (is_str "complete" type) _ _ finished (
      if-Registers (is_str "channelError" type)
        (appended (channel_error (get_field "message" event))) _ (registers refl)
        (if-Registers (is_str "iopub" type) _ unchanged said (registers refl)))

-- the positions that each id stands for are of display outputs
abbrev pub Shown : Reduction → Type 0
Shown r = (id : String) → AreDisplays r.outputs (positions (get id r.displays))

if-Shown : (b : Bool) (r : Reduction) → Shown r → Shown (if b then clear r else r)
unfolding get
if-Shown true r h = λ id. refl
if-Shown false r h = h

append-Shown : (o : Output) (r : Reduction) → Shown r → Shown (append o r)
unfolding append
append-Shown o r h =
    let s = due r in
    let shown : Shown s = if-Shown r.clear_pending r h in
    λ id.
      AreDisplays-mono s.outputs (push s.outputs o) (positions (get id s.displays))
        (is_display_at-push s.outputs o) (shown id)

register-Shown :
    (id : Option String) (r : Reduction)
    → is_display_at r.outputs (length r.outputs - 1) ≡ true
    → Shown r
    → Shown (register id r)
unfolding register
register-Shown none r last h = h
register-Shown (some id) r last h = λ other.
    let is = positions (get id r.displays) ++ ((length r.outputs - 1) ∷ []) in
    subst (λ found. AreDisplays r.outputs (positions found)) (sym (get-put id other is r.displays))
      (elim (Bool-cases (id == other)) [
        | inl t ↦
            subst
              (λ b. AreDisplays r.outputs (positions (if b then some is else get other r.displays)))
              (sym t) (AreDisplays-snoc r.outputs (positions (get id r.displays)) _ (h id) last)
        | inr f ↦
            subst
              (λ b. AreDisplays r.outputs (positions (if b then some is else get other r.displays)))
              (sym f) (h other)
      ])

recount-Shown : (c : Option (Option ℕ)) (r : Reduction) → Shown r → Shown (recount c r)
recount-Shown none r h = h
recount-Shown (some c) r h = h

append-last :
    (o : Output) (r : Reduction)
    → is_display o ≡ true
    → is_display_at (append o r).outputs (length (append o r).outputs - 1) ≡ true
unfolding append
append-last o r h = is_display_at-last (due r).outputs o h

apply_change-Shown : (c : Change) (r : Reduction) → Registers c → Shown r → Shown (apply_change c r)
unfolding apply_change get
apply_change-Shown unchanged r g h = h
apply_change-Shown cleared r g h = λ id. refl
apply_change-Shown clear_deferred r g h = h
apply_change-Shown (counted value) r g h = h
apply_change-Shown (appended o) r g h = append-Shown o r h
apply_change-Shown (displayed o id value) r g h =
    let counted_r = recount value r in
    register-Shown id (append o counted_r) (append-last o counted_r g.are_displays)
      (append-Shown o counted_r (recount-Shown value r h))
apply_change-Shown (updated id d f) r g h = λ other.
    let js = positions (get id r.displays) in
    AreDisplays-mono r.outputs (update_all d f js r.outputs) (positions (get other r.displays))
      (λ i e. is_display_at-update_all d f js r.outputs i ∙ e) (h other)

reduce-Shown_from : (events : List Fields) (r : Reduction) → Shown r → Shown (reduce events r)
unfolding reduce
reduce-Shown_from [] r h = h
reduce-Shown_from (event ∷ events) r h =
    reduce-Shown_from events (apply_change (read_event event) r)
      (apply_change-Shown (read_event event) r (read_event-Registers event) h)

-- After any events each position that is kept for an id of a display lies within the outputs and
-- is that of a display output, whatever was cleared or updated before.
pub reduce-Shown : (events : List Fields) → Shown (reduce events nothing_yet)
unfolding get
reduce-Shown events = reduce-Shown_from events nothing_yet (λ id. refl)
