-- ===== src/ExecutionQueue/Serial.antt =====
-- The execution queue runs the tasks of a notebook one after the other
-- (src/core/executionQueue.ts: the promise that a task waits for).
use jupyter_pair_ext.Base.{
  ℕ, suc, String, ◌≡◌, refl, sym, ap, ◌∙◌, subst, inl, inr, Bool, true, false, not, Option, none,
  some, List, [], ◌∷◌, ◌++◌, arith, ltb, if◌then◌else◌, nat_eqb_iff, Bool-cases, Option-cases, ◌==◌,
  nat_eq, string_eq, beq_refl, all, any, get, put, remove, get-put, get-remove,
}
use jupyter_pair_ext.ExecutionQueue.{QueueLimits, ExecutionQueue, enqueue, finish_task}
use jupyter_pair_ext.ExecutionQueue.Line.{
  Task, has_id, of_key, or_earlier, latest, mine, latest-append, latest-none, any-latest,
  latest-has_id, Chained, Ascending, append_nil, Chained-append, append-Chained, Chained-without,
  Ascending-without, Ascending-after, Ascending-latest, Ascending-snoc, all-append, all-weaken,
  latest-left, has_id-append,
}

-- The queue, the tasks in the order of their acceptance, and the number of the next promise.
pub record Running : Type 0 where
  pub queue : ExecutionQueue
  pub tasks : List Task
  pub next : ℕ

-- A promise has settled when it is none of a task that has not ended.
unfoldable pub is_settled : Option ℕ → List Task → Bool
is_settled none tasks = true
is_settled (some i) tasks = not (has_id i tasks)

-- What the program does: a task can end once what it waits for has settled.
module _ (limits : QueueLimits) where
  pub data Step (w : Running) : Running → Type 0 where
    accept :
        (key : String) (q : ExecutionQueue) (previous : Option ℕ)
        → enqueue limits key w.next w.queue ≡ some (q, previous)
        → Step w (record {
          queue = q;
          tasks = w.tasks ++ (record { key = key; id = w.next; previous = previous } ∷ []);
          next = suc w.next;
        })
    finish :
        (t : Task) (before after : List Task)
        → w.tasks ≡ before ++ (t ∷ after)
        → is_settled t.previous w.tasks ≡ true
        → Step w (record {
          queue = finish_task t.key t.id w.queue;
          tasks = before ++ after;
          next = w.next;
        })

  pub data Reach : Running → Type 0 where
    initially : Reach (record {
      queue = record { tails = []; pending = []; total_pending = 0 };
      tasks = [];
      next = 0;
    })
    later : {v w : Running} → Reach v → Step v w → Reach w

-- What it promises: tasks are accepted at the end of a line, and only the first of a notebook in
-- the line can end.
pub data Serial (line : List Task) : List Task → Type 0 where
  accept : (t : Task) → Serial line (line ++ (t ∷ []))
  finish :
      (t : Task) (before after : List Task)
      → line ≡ before ++ (t ∷ after)
      → any (of_key t.key) before ≡ false
      → Serial line (before ++ after)

record Inv (w : Running) : Type 0 where
  tails : (key : String) → get key w.queue.tails ≡ latest key w.tasks
  chained : Chained [] w.tasks
  ascending : Ascending 0 w.tasks
  fresh : all (λ (t : Task). ltb t.id w.next) w.tasks ≡ true

-- the task of a notebook that has ended last is the one whose tail the queue holds, or not
finish-held :
    (key : String) (id : ℕ) (q : ExecutionQueue)
    → get key q.tails ≡ some id
    → (finish_task key id q).tails ≡ remove key q.tails
unfolding finish_task
finish-held key id q e = ground (arith, e, nat_eqb_iff id id)

finish-other :
    (key : String) (id j : ℕ) (q : ExecutionQueue)
    → get key q.tails ≡ some j
    → (j == id) ≡ false
    → (finish_task key id q).tails ≡ q.tails
unfolding finish_task
finish-other key id j q e n = ground (arith, e, n)

if-or :
    (b : Bool) (n : ℕ) (o : Option ℕ)
    → (if b then some n else o) ≡ or_earlier (if b then some n else none) o
if-or true n o = refl
if-or false n o = refl

settled-has_id :
    (j : ℕ) (tasks : List Task) → is_settled (some j) tasks ≡ true → has_id j tasks ≡ false
unfolding is_settled
settled-has_id j tasks h = ground (arith, h)

module _ (limits : QueueLimits) where
  accept-Inv :
      (w : Running) (key : String) (q : ExecutionQueue) (previous : Option ℕ)
      → Inv w
      → enqueue limits key w.next w.queue ≡ some (q, previous)
      → Inv (record {
        queue = q;
        tasks = w.tasks ++ (record { key = key; id = w.next; previous = previous } ∷ []);
        next = suc w.next;
      })
  unfolding enqueue latest
  accept-Inv w key q previous i h =
      let t : Task = record { key = key; id = w.next; previous = previous } in
      let (tails, waits) : (q.tails ≡ put key w.next w.queue.tails)
          × (previous ≡ get key w.queue.tails) =
        ground (arith, h) in
      record {
        tails = λ k.
            ap (get k) tails
            ∙ get-put key k w.next w.queue.tails
            ∙ ap (λ o. if key == k then some w.next else o) (i.tails k)
            ∙ if-or (key == k) w.next (latest k w.tasks)
            ∙ sym (latest-append k w.tasks (t ∷ []));
        chained =
            append-Chained [] w.tasks (t ∷ []) i.chained ((λ j e. waits ∙ i.tails key ∙ e), tt);
        ascending = Ascending-snoc 0 t w.tasks i.ascending i.fresh omega arith;
        fresh =
            all-append (λ (u : Task). ltb u.id (suc w.next)) w.tasks (t ∷ [])
            ∙ ground (arith, all-weaken w.next w.tasks i.fresh);
      }

  -- a task whose promise has settled is the first of its notebook
  settled-first :
      (w : Running) (t : Task) (before after : List Task)
      → Inv w
      → w.tasks ≡ before ++ (t ∷ after)
      → is_settled t.previous w.tasks ≡ true
      → any (of_key t.key) before ≡ false
  settled-first w t before after i e h = elim (Option-cases (latest t.key before)) [
    | inl n ↦ latest-none t.key before n
    | inr (j, l) ↦
        let chain = (Chained-append [] before (t ∷ after) (subst (Chained []) e i.chained)).1 in
        let there : has_id j w.tasks ≡ true =
          ap (has_id j) e ∙ has_id-append j before (t ∷ after) (latest-has_id t.key before j l) in
        let gone =
          settled-has_id j w.tasks (ap (λ p. is_settled p w.tasks) (sym (chain.0 j l)) ∙ h) in
        cc (there, gone)
  ]

  -- of another notebook nothing changes
  other-tails :
      (w : Running) (t : Task) (before after : List Task)
      → Inv w
      → w.tasks ≡ before ++ (t ∷ after)
      → (k : String) → (t.key == k) ≡ false
      → get k w.queue.tails ≡ latest k (before ++ after)
  other-tails w t before after i e k n =
      i.tails k ∙ ap (latest k) e ∙ latest-left k t before after n

  -- the queue holds the tail of the task, the last of its notebook
  held-tails :
      (w : Running) (t : Task) (before after : List Task)
      → Inv w
      → w.tasks ≡ before ++ (t ∷ after)
      → any (of_key t.key) before ≡ false
      → latest t.key after ≡ none
      → (k : String) → get k (finish_task t.key t.id w.queue).tails ≡ latest k (before ++ after)
  unfolding latest
  held-tails w t before after i e first n k =
      let alone = any-latest t.key before first in
      let held : get t.key w.queue.tails ≡ some t.id =
        i.tails t.key
        ∙ ap (latest t.key) e
        ∙ latest-append t.key before (t ∷ after)
        ∙ ap (λ o. or_earlier (or_earlier o (mine t.key t)) (latest t.key before)) n
        ∙ ap (λ b. or_earlier (if b then some t.id else none) (latest t.key before))
            (beq_refl t.key) in
      let gone : latest t.key (before ++ after) ≡ none =
        latest-append t.key before after ∙ ap (λ o. or_earlier o (latest t.key before)) n ∙ alone in
      ap (get k) (finish-held t.key t.id w.queue held)
      ∙ get-remove t.key k w.queue.tails
      ∙ (elim (Bool-cases (t.key == k)) [
        | inl same ↦
            ap (λ b. if b then none else get k w.queue.tails) same
            ∙ sym gone
            ∙ ap (λ x. latest x (before ++ after)) ((string_eq.equal_iff t.key k).0 same)
        | inr other ↦
            ap (λ b. if b then none else get k w.queue.tails) other
            ∙ other-tails w t before after i e k other
      ])

  -- the queue holds the tail of a later task of the notebook
  later-tails :
      (w : Running) (t : Task) (before after : List Task) (j : ℕ)
      → Inv w
      → w.tasks ≡ before ++ (t ∷ after)
      → latest t.key after ≡ some j
      → (k : String) → get k (finish_task t.key t.id w.queue).tails ≡ latest k (before ++ after)
  unfolding latest
  later-tails w t before after j i e l k =
      let stays : latest t.key (before ++ after) ≡ some j =
        latest-append t.key before after ∙ ap (λ o. or_earlier o (latest t.key before)) l in
      let held : get t.key w.queue.tails ≡ some j =
        i.tails t.key
        ∙ ap (latest t.key) e
        ∙ latest-append t.key before (t ∷ after)
        ∙ ap (λ o. or_earlier (or_earlier o (mine t.key t)) (latest t.key before)) l in
      let higher =
        Ascending-latest (suc t.id) t.key after j
          (Ascending-after 0 t before after (subst (Ascending 0) e i.ascending)) l in
      ap (get k) (finish-other t.key t.id j w.queue held ground (arith, higher, nat_eqb_iff j t.id))
      ∙ (elim (Bool-cases (t.key == k)) [
        | inl same ↦
            let k_is = (string_eq.equal_iff t.key k).0 same in
            ap (λ x. get x w.queue.tails) (sym k_is)
            ∙ held
            ∙ sym stays
            ∙ ap (λ x. latest x (before ++ after)) k_is
        | inr other ↦ other-tails w t before after i e k other
      ])

  finish-tails :
      (w : Running) (t : Task) (before after : List Task)
      → Inv w
      → w.tasks ≡ before ++ (t ∷ after)
      → any (of_key t.key) before ≡ false
      → (k : String) → get k (finish_task t.key t.id w.queue).tails ≡ latest k (before ++ after)
  finish-tails w t before after i e first k = elim (Option-cases (latest t.key after)) [
    | inl n ↦ held-tails w t before after i e first n k
    | inr (j, l) ↦ later-tails w t before after j i e l k
  ]

  finish-Inv :
      (w : Running) (t : Task) (before after : List Task)
      → Inv w
      → w.tasks ≡ before ++ (t ∷ after)
      → any (of_key t.key) before ≡ false
      → Inv (record {
        queue = finish_task t.key t.id w.queue;
        tasks = before ++ after;
        next = w.next;
      })
  finish-Inv w t before after i e first = record {
    tails = finish-tails w t before after i e first;
    chained =
        let c = Chained-append [] before (t ∷ after) (subst (Chained []) e i.chained) in
        append-Chained [] before after c.0 (
          subst (λ l. Chained l after) (append_nil before)
            (Chained-without t before [] after first c.1.1));
    ascending = Ascending-without 0 t before after (subst (Ascending 0) e i.ascending);
    fresh =
        let known = sym (ap (all (λ (u : Task). ltb u.id w.next)) e) ∙ i.fresh in
        ground (
          arith,
          known,
          all-append (λ (u : Task). ltb u.id w.next) before (t ∷ after),
          all-append (λ (u : Task). ltb u.id w.next) before after,
        );
  }

  Reach-Inv : {w : Running} → Reach limits w → Inv w
  unfolding latest get
  Reach-Inv initially = record { tails = λ k. refl; chained = tt; ascending = tt; fresh = refl }
  Reach-Inv (later {v} before (accept key q previous h)) =
      accept-Inv v key q previous (Reach-Inv before) h
  Reach-Inv (later {v} before (finish t front back e h)) =
      finish-Inv v t front back (Reach-Inv before) e
        (settled-first v t front back (Reach-Inv before) e h)

  -- The queue refines a line of tasks in which only the first of a notebook can end: every step
  -- from a state that can be reached is a step of that line.
  pub Step-Serial : {v w : Running} → Reach limits v → Step limits v w → Serial v.tasks w.tasks
  Step-Serial {v} r (accept key q previous h) =
      accept (record { key = key; id = v.next; previous = previous })
  Step-Serial {v} r (finish t before after e h) =
      finish t before after e (settled-first v t before after (Reach-Inv r) e h)
