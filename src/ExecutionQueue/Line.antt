-- ===== src/ExecutionQueue/Line.antt =====
-- The tasks of an execution queue in the order of their acceptance (src/core/executionQueue.ts).
use jupyter_pair_ext.Base.{
  append_assoc, ℕ, suc, ◌≤◌, String, ◌≡◌, refl, sym, ap, ◌∙◌, subst, inl, inr, Bool, true, false,
  ◌&&◌, Option, none, some, List, [], ◌∷◌, ◌++◌, arith, ltb, if◌then◌else◌, nat_eqb_iff, Bool-cases,
  Option-cases, ◌==◌, nat_eq, string_eq, all, any,
}

-- A task that was accepted and has not ended, with the tail that it waits for.
pub record Task : Type 0 where
  pub key : String
  pub id : ℕ
  pub previous : Option ℕ

unfoldable pub has_id : ℕ → List Task → Bool
has_id i tasks = any (λ (t : Task). t.id == i) tasks

abbrev pub of_key : String → Task → Bool
of_key key t = t.key == key

abbrev pub or_earlier : Option ℕ → Option ℕ → Option ℕ
or_earlier (some i) o = some i
or_earlier none o = o

-- The last task of a notebook.
unfoldable pub latest : String → List Task → Option ℕ
latest key [] = none
latest key (t ∷ ts) = or_earlier (latest key ts) (if t.key == key then some t.id else none)

or_none : (o : Option ℕ) → or_earlier o none ≡ o
or_none none = refl
or_none (some i) = refl

or_assoc : (a b c : Option ℕ) → or_earlier (or_earlier a b) c ≡ or_earlier a (or_earlier b c)
or_assoc none b c = refl
or_assoc (some i) b c = refl

abbrev pub mine : String → Task → Option ℕ
mine key t = if t.key == key then some t.id else none

pub latest-append :
    (key : String) (a b : List Task)
    → latest key (a ++ b) ≡ or_earlier (latest key b) (latest key a)
unfolding latest
latest-append key [] b = sym (or_none (latest key b))
latest-append key (t ∷ a) b =
    ap (λ o. or_earlier o (mine key t)) (latest-append key a b)
    ∙ or_assoc (latest key b) (latest key a) (mine key t)

pub latest-none : (key : String) (a : List Task) → latest key a ≡ none → any (of_key key) a ≡ false
unfolding latest
latest-none key [] h = refl
latest-none key (t ∷ a) h = elim (Option-cases (latest key a)) [
  | inl e ↦
      let rest = latest-none key a e in
      let own : mine key t ≡ none = ap (λ o. or_earlier o (mine key t)) (sym e) ∙ h in
      ground (arith, own, rest)
  | inr (i, e) ↦ cc (ap (λ o. or_earlier o (mine key t)) (sym e) ∙ h)
]

pub any-latest : (key : String) (a : List Task) → any (of_key key) a ≡ false → latest key a ≡ none
unfolding latest
any-latest key [] h = refl
any-latest key (t ∷ a) h =
    let rest = any-latest key a ground (arith, h) in
    let own : mine key t ≡ none = ground (arith, h) in
    ap (λ o. or_earlier o (mine key t)) rest ∙ own

pub latest-has_id :
    (key : String) (a : List Task) (i : ℕ) → latest key a ≡ some i → has_id i a ≡ true
unfolding latest has_id
latest-has_id key [] i h = cc h
latest-has_id key (t ∷ a) i h = elim (Option-cases (latest key a)) [
  | inl e ↦
      let own : mine key t ≡ some i = ap (λ o. or_earlier o (mine key t)) (sym e) ∙ h in
      ground (arith, own, nat_eqb_iff t.id i)
  | inr (j, e) ↦
      let same : some j ≡ some i = ap (λ o. or_earlier o (mine key t)) (sym e) ∙ h in
      ground (arith, latest-has_id key a i (e ∙ same))
]

-- a task that is not the last of its notebook, or whose notebook has none before it, can be left
-- out
latest-without :
    (key : String) (t : Task) (before after : List Task) (i : ℕ)
    → any (of_key t.key) before ≡ false
    → latest key (before ++ after) ≡ some i
    → latest key (before ++ (t ∷ after)) ≡ some i
unfolding latest
latest-without key t before after i first h = elim (Option-cases (latest key after)) [
  | inr (j, e) ↦
      latest-append key before (t ∷ after)
      ∙ ap (λ o. or_earlier (or_earlier o (mine key t)) (latest key before)) e
      ∙ ap (λ o. or_earlier o (latest key before)) (sym e)
      ∙ sym (latest-append key before after)
      ∙ h
  | inl e ↦
      let earlier : latest key before ≡ some i =
        ap (λ o. or_earlier o (latest key before)) (sym e)
        ∙ sym (latest-append key before after)
        ∙ h in
      elim (Bool-cases (t.key == key)) [
        | inl same ↦
            let k : t.key ≡ key = (string_eq.equal_iff t.key key).0 same in
            cc (sym (any-latest t.key before first) ∙ ap (λ x. latest x before) k ∙ earlier)
        | inr other ↦
            latest-append key before (t ∷ after)
            ∙ ap (λ o. or_earlier (or_earlier o (mine key t)) (latest key before)) e
            ∙ ap (λ b. or_earlier (if b then some t.id else none) (latest key before)) other
            ∙ earlier
      ]
]

-- Each task waits for the last one of its notebook before it, if there is one.
abbrev pub Chained : List Task → List Task → Type 0
Chained before [] = Unit
Chained before (t ∷ ts) =
    ((i : ℕ) → latest t.key before ≡ some i → t.previous ≡ some i) × Chained (before ++ (t ∷ [])) ts

abbrev pub Ascending : ℕ → List Task → Type 0
Ascending n [] = Unit
Ascending n (t ∷ ts) = (n ≤ t.id) × Ascending (suc t.id) ts

pub append_nil : (l : List Task) → l ++ [] ≡ l
append_nil [] = refl
append_nil (x ∷ l) = ap (λ m. x ∷ m) (append_nil l)

pub Chained-append :
    (before a b : List Task) → Chained before (a ++ b) → Chained before a × Chained (before ++ a) b
Chained-append before [] b h = (tt, subst (λ l. Chained l b) (sym (append_nil before)) h)
Chained-append before (t ∷ a) b h =
    let (x, y) = Chained-append (before ++ (t ∷ [])) a b h.1 in
    ((h.0, x), subst (λ l. Chained l b) (append_assoc before (t ∷ []) a) y)

pub append-Chained :
    (before a b : List Task) → Chained before a → Chained (before ++ a) b → Chained before (a ++ b)
append-Chained before [] b h k = subst (λ l. Chained l b) (append_nil before) k
append-Chained before (t ∷ a) b h k = (
  h.0,
  append-Chained (before ++ (t ∷ [])) a b h.1
      (subst (λ l. Chained l b) (sym (append_assoc before (t ∷ []) a)) k),
)

pub Chained-without :
    (t : Task) (before mid rest : List Task)
    → any (of_key t.key) before ≡ false
    → Chained (before ++ (t ∷ mid)) rest
    → Chained (before ++ mid) rest
Chained-without t before mid [] first h = tt
Chained-without t before mid (u ∷ rest) first h = (
  λ i e. h.0 i (latest-without u.key t before mid i first e),
  subst (λ l. Chained l rest) (sym (append_assoc before mid (u ∷ [])))
      (Chained-without t before (mid ++ (u ∷ [])) rest first
        (subst (λ l. Chained l rest) (append_assoc before (t ∷ mid) (u ∷ [])) h.1)),
)

Ascending-weaken : (m n : ℕ) (a : List Task) → m ≤ n → Ascending n a → Ascending m a
Ascending-weaken m n [] l h = tt
Ascending-weaken m n (t ∷ a) l h = (omega (arith, l, h.0), h.1)

pub Ascending-without :
    (n : ℕ) (t : Task) (before after : List Task)
    → Ascending n (before ++ (t ∷ after))
    → Ascending n (before ++ after)
Ascending-without n t [] after h = Ascending-weaken n (suc t.id) after omega (arith, h.0) h.1
Ascending-without n t (u ∷ before) after h = (h.0, Ascending-without (suc u.id) t before after h.1)

pub Ascending-after :
    (n : ℕ) (t : Task) (before after : List Task)
    → Ascending n (before ++ (t ∷ after))
    → Ascending (suc t.id) after
Ascending-after n t [] after h = h.1
Ascending-after n t (u ∷ before) after h = Ascending-after (suc u.id) t before after h.1

pub Ascending-latest :
    (n : ℕ) (key : String) (a : List Task) (j : ℕ) → Ascending n a → latest key a ≡ some j → n ≤ j
unfolding latest
Ascending-latest n key [] j h e = cc e
Ascending-latest n key (t ∷ a) j h e = elim (Option-cases (latest key a)) [
  | inl none_later ↦
      let own : mine key t ≡ some j = ap (λ o. or_earlier o (mine key t)) (sym none_later) ∙ e in
      let same : t.id ≡ j = ground (arith, own) in omega (arith, same, h.0)
  | inr (i, some_later) ↦
      let same : some i ≡ some j = ap (λ o. or_earlier o (mine key t)) (sym some_later) ∙ e in
      omega (arith, h.0, Ascending-latest (suc t.id) key a j h.1 (some_later ∙ same))
]

pub Ascending-snoc :
    (n : ℕ) (t : Task) (a : List Task)
    → Ascending n a
    → all (λ (u : Task). ltb u.id t.id) a ≡ true
    → n ≤ t.id
    → Ascending n (a ++ (t ∷ []))
Ascending-snoc n t [] h f l = (l, tt)
Ascending-snoc n t (u ∷ a) h f l =
    (h.0, Ascending-snoc (suc u.id) t a h.1 ground (arith, f) ground (arith, f))

pub all-append : (p : Task → Bool) (a b : List Task) → all p (a ++ b) ≡ (all p a && all p b)
all-append p [] b = refl
all-append p (x ∷ a) b = ground (arith, all-append p a b)

pub all-weaken :
    (n : ℕ) (a : List Task)
    → all (λ (t : Task). ltb t.id n) a ≡ true
    → all (λ (t : Task). ltb t.id (suc n)) a ≡ true
all-weaken n [] h = refl
all-weaken n (t ∷ a) h = ground (arith, h, all-weaken n a)

-- the last task of a notebook once another has left the line
pub latest-left :
    (k : String) (t : Task) (before after : List Task)
    → (t.key == k) ≡ false
    → latest k (before ++ (t ∷ after)) ≡ latest k (before ++ after)
unfolding latest
latest-left k t before after n =
    latest-append k before (t ∷ after)
    ∙ ap
        (λ b.
          or_earlier (or_earlier (latest k after) (if b then some t.id else none))
            (latest k before))
        n
    ∙ ap (λ o. or_earlier o (latest k before)) (or_none (latest k after))
    ∙ sym (latest-append k before after)

pub has_id-append : (j : ℕ) (a b : List Task) → has_id j a ≡ true → has_id j (a ++ b) ≡ true
unfolding has_id
has_id-append j [] b h = cc h
has_id-append j (t ∷ a) b h = ground (arith, h, has_id-append j a b)
