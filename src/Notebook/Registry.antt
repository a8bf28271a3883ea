-- ===== src/Notebook/Registry.antt =====
-- `StableCellIdRegistry` of src/core/notebookIdentity.ts: the ids of the cell objects of an
-- editor. An object is a number; `created` is the id that the registry's generator would return.
use jupyter_pair_ext.Base.{
  ℕ, String, ◌≡◌, refl, ◌∙◌, subst, inl, inr, Bool, true, Option, none, some, [], ◌∷◌, arith,
  if◌then◌else◌, Bool-cases, Option-cases, ◌==◌, nat_eq, string_eq, or_else, beq_refl, all, Map,
  get, put, get-put,
}
use jupyter_pair_ext.Base.Js.{matches_id}

abbrev pub Registry : Type 0
Registry = Map ℕ String

-- `validCellId`: `/^[A-Za-z0-9_-]{1,128}$/`
unfoldable pub valid_cell_id : Option String → Option String
valid_cell_id none = none
valid_cell_id (some id) = if matches_id 128 id then some id else none

-- `a ?? b`
abbrev pub or_try : Option String → Option String → Option String
or_try none b = b
or_try (some a) b = some a

unfoldable pub seed : Registry → ℕ → Option String → Option String → String → Registry × String
seed ids cell explicit initial created =
    let id =
      or_else (or_try (valid_cell_id explicit) (or_try (get cell ids) (valid_cell_id initial)))
        created in
    (put cell id ids, id)

unfoldable pub id_for : Registry → ℕ → Option String → String → Registry × String
id_for ids cell explicit created =
    let id = or_else (or_try (valid_cell_id explicit) (get cell ids)) created in
    (put cell id ids, id)

-- an empty id is not remembered
unfoldable pub known_id : Registry → ℕ → Option String → Registry × Option String
known_id ids cell explicit = elim (or_try (valid_cell_id explicit) (get cell ids)) [
  | none ↦ (ids, none)
  | some id ↦ (if id == "" then ids else put cell id ids, some id)
]

-- `none` stands for the thrown error
unfoldable pub renew : Registry → ℕ → String → Option (Registry × String)
renew ids cell created = elim (valid_cell_id (some created)) [
  | none ↦ none
  | some _ ↦ some (put cell created ids, created)
]

some_inj : {a b : String} → some a ≡ some b → a ≡ b
some_inj e = cc

valid_cell_id-some :
    (o : Option String) {id : String}
    → valid_cell_id o ≡ some id
    → (o ≡ some id) × (matches_id 128 id ≡ true)
unfolding valid_cell_id
valid_cell_id-some none h = cc
valid_cell_id-some (some x) h = elim (Bool-cases (matches_id 128 x)) [
  | inl t ↦
      let e : some x ≡ some _ = rw t at h in
      (e, subst (λ y. matches_id 128 y ≡ true) (some_inj e) t)
  | inr f ↦ let e : none ≡ some _ = rw f at h in cc e
]

-- Every id that the registry holds is a valid one.
unfoldable pub all_valid : Registry → Bool
all_valid ids = all (λ entry. matches_id 128 entry.1) ids

put-all_valid :
    (ids : Registry) (cell : ℕ) (id : String)
    → all_valid ids ≡ true
    → matches_id 128 id ≡ true
    → all_valid (put cell id ids) ≡ true
unfolding all_valid put
put-all_valid [] cell id v m = rw m refl
put-all_valid ((c, x) ∷ ids) cell id v m = ground (arith, v, m, put-all_valid ids cell id)

get-all_valid :
    (ids : Registry) (cell : ℕ) {id : String}
    → all_valid ids ≡ true
    → get cell ids ≡ some id
    → matches_id 128 id ≡ true
unfolding all_valid get
get-all_valid [] cell v h = cc h
get-all_valid ((c, x) ∷ ids) cell {id} v h = elim (Bool-cases (c == cell)) [
  | inl t ↦
      let e : some x ≡ some id = rw t at h in
      subst (λ y. matches_id 128 y ≡ true) (some_inj e) ground (arith, v)
  | inr f ↦ let e : get cell ids ≡ some id = rw f at h in get-all_valid ids cell ground (arith, v) e
]

chosen-valid :
    (ids : Registry) (cell : ℕ) (explicit : Option String) (created : String)
    → all_valid ids ≡ true
    → matches_id 128 created ≡ true
    → matches_id 128 (or_else (or_try (valid_cell_id explicit) (get cell ids)) created) ≡ true
chosen-valid ids cell explicit created v m = elim (Option-cases (valid_cell_id explicit)) [
  | inr (x, e) ↦ rw e (valid_cell_id-some explicit e).1
  | inl e ↦ rw e (elim (Option-cases (get cell ids)) [
    | inr (y, k) ↦ rw k (get-all_valid ids cell v k)
    | inl k ↦ rw k m
  ])
]

known_id-found :
    (ids : Registry) (cell : ℕ) (unused : Option String) (id : String)
    → valid_cell_id unused ≡ none
    → get cell ids ≡ some id
    → (known_id ids cell unused).1 ≡ some id
unfolding known_id
known_id-found ids cell unused id u there =
    let e : or_try (valid_cell_id unused) (get cell ids) ≡ some id = rw (u, there) refl in
    rw (e, known_id) refl

-- A cell object keeps the id that it was given: later questions that bring no valid id of their
-- own get the same answer, whatever the generator would say; any other object's id is what it
-- was; and with a generator of valid ids the registry holds only valid ones.
pub id_for_stable :
    (ids : Registry) (cell other : ℕ) (explicit unused : Option String) (created later : String)
    → all_valid ids ≡ true
    → matches_id 128 created ≡ true
    → valid_cell_id unused ≡ none
    → let (ids', id) = id_for ids cell explicit created in
      ((id_for ids' cell unused later).1 ≡ id)
      × ((known_id ids' cell unused).1 ≡ some id)
      × (get other ids' ≡ (if cell == other then some id else get other ids))
      × (all_valid ids' ≡ true)
unfolding id_for
id_for_stable ids cell other explicit unused created later v m u =
    let id = or_else (or_try (valid_cell_id explicit) (get cell ids)) created in
    let there : get cell (put cell id ids) ≡ some id =
      get-put cell cell id ids ∙ rw (beq_refl cell) refl in
    (
      rw (u, there) refl,
      known_id-found (put cell id ids) cell unused id u there,
      get-put cell other id ids,
      put-all_valid ids cell id v (chosen-valid ids cell explicit created v m),
    )
