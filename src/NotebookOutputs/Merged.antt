-- ===== src/NotebookOutputs/Merged.antt =====
-- Streams in the outputs of a run (src/vps/persistentNotebookOutputs.ts).
use jupyter_pair_ext.Base.{
  ℕ, zero, suc, String, ◌≡◌, refl, sym, ap, ◌∙◌, inl, inr, Bool, true, false, not, ◌&&◌, Option,
  none, some, List, [], ◌∷◌, ◌++◌, arith, if◌then◌else◌, Bool-cases, nat_eq, string_eq, get,
}
use jupyter_pair_ext.Base.Js.{Fields}
use jupyter_pair_ext.Base.{append_assoc}
use jupyter_pair_ext.Base.Codes.{Text}
use jupyter_pair_ext.NotebookOutputs.{
  StreamName, stdout, stderr, Output, stream, display_data, execute_result, error, Reduction,
  Change, unchanged, cleared, clear_deferred, counted, appended, displayed, updated, read_event,
  is_same_name, clear, merge, push, due, push_to, append, set_data, update_at, update_all,
  positions, register, recount, apply_change, nothing_yet, reduce, persistent_notebook_outputs,
}

-- two streams of one name
abbrev pub are_mergeable : Output → Output → Bool
are_mergeable (stream n a) (stream m b) = is_same_name n m
are_mergeable (stream n a) (display_data d f) = false
are_mergeable (stream n a) (execute_result d f c) = false
are_mergeable (stream n a) (error e v t) = false
are_mergeable (display_data d f) o = false
are_mergeable (execute_result d f c) o = false
are_mergeable (error e v t) o = false

abbrev pub head_apart : Output → List Output → Bool
head_apart x [] = true
head_apart x (y ∷ ys) = not (are_mergeable x y)

-- no two neighbours are streams of one name
unfoldable pub are_merged : List Output → Bool
are_merged [] = true
are_merged (x ∷ xs) = head_apart x xs && are_merged xs

is_same_name_refl : (n : StreamName) → is_same_name n n ≡ true
is_same_name_refl stdout = refl
is_same_name_refl stderr = refl

-- what is pushed merges with the last, which keeps what comes before apart from it
head_apart-merge : (x y o : Output) → are_mergeable x y ≡ false → head_apart x (merge y o) ≡ true
head_apart-merge (stream k c) (stream n a) (stream m b) h = elim (Bool-cases (is_same_name n m)) [
  | inl t ↦ ground (arith, t, h)
  | inr f ↦ ground (arith, f, h)
]
head_apart-merge (display_data d f) (stream n a) (stream m b) h = ground arith
head_apart-merge (execute_result d f c) (stream n a) (stream m b) h = ground arith
head_apart-merge (error e v t) (stream n a) (stream m b) h = ground arith
head_apart-merge x (stream n a) (display_data d f) h = ground (arith, h)
head_apart-merge x (stream n a) (execute_result d f c) h = ground (arith, h)
head_apart-merge x (stream n a) (error e v t) h = ground (arith, h)
head_apart-merge x (display_data d f) o h = ground (arith, h)
head_apart-merge x (execute_result d f c) o h = ground (arith, h)
head_apart-merge x (error e v t) o h = ground (arith, h)

merge-merged : (x o : Output) → are_merged (merge x o) ≡ true
unfolding are_merged
merge-merged (stream n a) (stream m b) = elim (Bool-cases (is_same_name n m)) [
  | inl t ↦ ground (arith, t)
  | inr f ↦ ground (arith, f)
]
merge-merged (stream n a) (display_data d f) = refl
merge-merged (stream n a) (execute_result d f c) = refl
merge-merged (stream n a) (error e v t) = refl
merge-merged (display_data d f) o = refl
merge-merged (execute_result d f c) o = refl
merge-merged (error e v t) o = refl

head_apart-push :
    (x y o : Output) (ys : List Output)
    → are_mergeable x y ≡ false
    → head_apart x (push (y ∷ ys) o) ≡ true
unfolding push
head_apart-push x y o [] h = head_apart-merge x y o h
head_apart-push x y o (z ∷ ys) h = ground (arith, h)

push-merged : (xs : List Output) (o : Output) → are_merged xs ≡ true → are_merged (push xs o) ≡ true
unfolding are_merged push
push-merged [] o h = refl
push-merged (x ∷ []) o h = merge-merged x o
push-merged (x ∷ y ∷ ys) o h =
    let apart : are_mergeable x y ≡ false = ground (arith, h) in
    let rest : are_merged (y ∷ ys) ≡ true = ground (arith, h) in
    ground (arith, head_apart-push x y o ys apart, push-merged (y ∷ ys) o rest)

mergeable-left :
    (d f : Fields) (x y : Output) → are_mergeable (set_data d f x) y ≡ are_mergeable x y
mergeable-left d f (stream n a) y = refl
mergeable-left d f (display_data e g) y = refl
mergeable-left d f (execute_result e g c) y = refl
mergeable-left d f (error e v t) y = refl

mergeable-right :
    (d f : Fields) (x y : Output) → are_mergeable x (set_data d f y) ≡ are_mergeable x y
mergeable-right d f x (stream n a) = refl
mergeable-right d f (stream n a) (display_data e g) = refl
mergeable-right d f (display_data _ _) (display_data e g) = refl
mergeable-right d f (execute_result _ _ _) (display_data e g) = refl
mergeable-right d f (error _ _ _) (display_data e g) = refl
mergeable-right d f (stream n a) (execute_result e g c) = refl
mergeable-right d f (display_data _ _) (execute_result e g c) = refl
mergeable-right d f (execute_result _ _ _) (execute_result e g c) = refl
mergeable-right d f (error _ _ _) (execute_result e g c) = refl
mergeable-right d f x (error e v t) = refl

head_apart-left :
    (d f : Fields) (x : Output) (xs : List Output)
    → head_apart (set_data d f x) xs ≡ head_apart x xs
head_apart-left d f x [] = refl
head_apart-left d f x (y ∷ ys) = ap not (mergeable-left d f x y)

head_apart-update :
    (d f : Fields) (i : ℕ) (x : Output) (xs : List Output)
    → head_apart x (update_at d f i xs) ≡ head_apart x xs
unfolding update_at
head_apart-update d f i x [] = refl
head_apart-update d f zero x (y ∷ ys) = ap not (mergeable-right d f x y)
head_apart-update d f (suc i) x (y ∷ ys) = refl

update_at-merged :
    (d f : Fields) (i : ℕ) (xs : List Output) → are_merged (update_at d f i xs) ≡ are_merged xs
unfolding are_merged update_at
update_at-merged d f i [] = refl
update_at-merged d f zero (x ∷ xs) = ap (λ b. b && are_merged xs) (head_apart-left d f x xs)
update_at-merged d f (suc i) (x ∷ xs) =
    ground (arith, head_apart-update d f i x xs, update_at-merged d f i xs)

update_all-merged :
    (d f : Fields) (is : List ℕ) (xs : List Output)
    → are_merged (update_all d f is xs) ≡ are_merged xs
unfolding update_all
update_all-merged d f [] xs = refl
update_all-merged d f (i ∷ is) xs =
    update_all-merged d f is (update_at d f i xs) ∙ update_at-merged d f i xs

append-merged :
    (o : Output) (r : Reduction)
    → are_merged r.outputs ≡ true
    → are_merged (append o r).outputs ≡ true
unfolding append are_merged
append-merged o r h = elim (Bool-cases r.clear_pending) [
  | inl t ↦ push-merged (due r).outputs o ground (arith, t, h)
  | inr f ↦ push-merged (due r).outputs o ground (arith, f, h)
]

register-outputs : (id : Option String) (r : Reduction) → (register id r).outputs ≡ r.outputs
unfolding register
register-outputs none r = refl
register-outputs (some id) r = refl

recount-outputs : (c : Option (Option ℕ)) (r : Reduction) → (recount c r).outputs ≡ r.outputs
recount-outputs none r = refl
recount-outputs (some c) r = refl

apply_change-merged :
    (c : Change) (r : Reduction)
    → are_merged r.outputs ≡ true
    → are_merged (apply_change c r).outputs ≡ true
unfolding apply_change are_merged
apply_change-merged unchanged r h = h
apply_change-merged cleared r h = refl
apply_change-merged clear_deferred r h = h
apply_change-merged (counted value) r h = h
apply_change-merged (appended o) r h = append-merged o r h
apply_change-merged (displayed o id value) r h =
    ap are_merged (register-outputs id (append o (recount value r)))
    ∙ append-merged o (recount value r) (ap are_merged (recount-outputs value r) ∙ h)
apply_change-merged (updated id d f) r h =
    update_all-merged d f (positions (get id r.displays)) r.outputs ∙ h

reduce-merged :
    (events : List Fields) (r : Reduction)
    → are_merged r.outputs ≡ true
    → are_merged (reduce events r).outputs ≡ true
unfolding reduce
reduce-merged [] r h = h
reduce-merged (event ∷ events) r h =
    reduce-merged events (apply_change (read_event event) r)
      (apply_change-merged (read_event event) r h)

-- The outputs of any events have no two neighbours that are streams of one name.
pub persistent_notebook_outputs-merged :
    (events : List Fields) → are_merged (persistent_notebook_outputs events).0 ≡ true
unfolding persistent_notebook_outputs are_merged
persistent_notebook_outputs-merged events = reduce-merged events nothing_yet refl

merge-cons : (x o : Output) → (z : Output) × (zs : List Output) × (merge x o ≡ z ∷ zs)
merge-cons (stream n a) (stream m b) = elim (Bool-cases (is_same_name n m)) [
  | inl t ↦ (stream n (a ++ b), [], ground (arith, t))
  | inr f ↦ (stream n a, stream m b ∷ [], ground (arith, f))
]
merge-cons (stream n a) (display_data d f) = (_, _, refl)
merge-cons (stream n a) (execute_result d f c) = (_, _, refl)
merge-cons (stream n a) (error e v t) = (_, _, refl)
merge-cons (display_data d f) o = (_, _, refl)
merge-cons (execute_result d f c) o = (_, _, refl)
merge-cons (error e v t) o = (_, _, refl)

push-cons :
    (y o : Output) (ys : List Output)
    → (z : Output) × (zs : List Output) × (push (y ∷ ys) o ≡ z ∷ zs)
unfolding push
push-cons y o [] = merge-cons y o
push-cons y o (x ∷ ys) = (y, push (x ∷ ys) o, refl)

push-behind :
    (x y o p : Output) (ys : List Output)
    → push (x ∷ push (y ∷ ys) o) p ≡ x ∷ push (push (y ∷ ys) o) p
unfolding push
push-behind x y o p ys =
    let (z, zs, e) = push-cons y o ys in ap (λ l. push (x ∷ l) p) e ∙ ap (λ l. x ∷ push l p) (sym e)

push-stream :
    (n : StreamName) (a b : Text) (xs : List Output)
    → push (push xs (stream n a)) (stream n b) ≡ push xs (stream n (a ++ b))
unfolding push
push-stream n a b [] = ground (arith, is_same_name_refl n)
push-stream n a b (stream m c ∷ []) = elim (Bool-cases (is_same_name m n)) [
  | inl t ↦ ground (arith, t, append_assoc c a b)
  | inr f ↦ ground (arith, f, is_same_name_refl n)
]
push-stream n a b (display_data d f ∷ []) = ground (arith, is_same_name_refl n)
push-stream n a b (execute_result d f c ∷ []) = ground (arith, is_same_name_refl n)
push-stream n a b (error e v t ∷ []) = ground (arith, is_same_name_refl n)
push-stream n a b (x ∷ y ∷ xs) =
    push-behind x y (stream n a) (stream n b) xs ∙ ap (λ l. x ∷ l) (push-stream n a b (y ∷ xs))

due-pending : (r : Reduction) → (due r).clear_pending ≡ false
due-pending r = elim (Bool-cases r.clear_pending) [
  | inl t ↦ ground (arith, t)
  | inr f ↦ ground (arith, f)
]

due-same : (r : Reduction) → r.clear_pending ≡ false → due r ≡ r
due-same r h = ap (λ b. if b then clear r else r) h

append-stream :
    (n : StreamName) (a b : Text) (r : Reduction)
    → append (stream n b) (append (stream n a) r) ≡ append (stream n (a ++ b)) r
unfolding append
append-stream n a b r =
    ap (push_to (stream n b)) (due-same (push_to (stream n a) (due r)) (due-pending r))
    ∙ ap (λ l. record (due r) { outputs = l }) (push-stream n a b (due r).outputs)

reduce-append :
    (events more : List Fields) (r : Reduction)
    → reduce (events ++ more) r ≡ reduce more (reduce events r)
unfolding reduce
reduce-append [] more r = refl
reduce-append (event ∷ events) more r =
    reduce-append events more (apply_change (read_event event) r)

-- Where two events are read as texts of one stream, and a third as one text after the other, the
-- third in place of the two leaves the outputs of any events as they are.
pub persistent_notebook_outputs-cut :
    (events more : List Fields) (first second both : Fields) (n : StreamName) (a b : Text)
    → read_event first ≡ appended (stream n a)
    → read_event second ≡ appended (stream n b)
    → read_event both ≡ appended (stream n (a ++ b))
    → persistent_notebook_outputs (events ++ (first ∷ second ∷ more))
      ≡ persistent_notebook_outputs (events ++ (both ∷ more))
unfolding persistent_notebook_outputs reduce apply_change
persistent_notebook_outputs-cut events more first second both n a b e f g =
    let r = reduce events nothing_yet in
    let same : apply_change (read_event second) (apply_change (read_event first) r)
        ≡ apply_change (read_event both) r =
      ap (λ c. apply_change c (apply_change (read_event first) r)) f
      ∙ ap (λ c. append (stream n b) (apply_change c r)) e
      ∙ append-stream n a b r
      ∙ ap (λ c. apply_change c r) (sym g) in
    ap (λ (q : Reduction). (q.outputs, q.execution_count))
      (reduce-append events (first ∷ second ∷ more) nothing_yet
        ∙ ap (reduce more) same
        ∙ sym (reduce-append events (both ∷ more) nothing_yet))
