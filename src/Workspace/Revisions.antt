-- ===== src/Workspace/Revisions.antt =====
-- Revisions of a persistent workspace: `mutate` with the operations of members and of the owner
-- (src/vps/persistentStorage.ts).
use jupyter_pair_ext.Base.{
  ℕ, ◌+◌, ◌≡◌, refl, sym, ap, ◌∙◌, subst, ◌⊎◌, inl, inr, Bool, true, false, Option, none, some,
  List, [], ◌∷◌, ◌++◌, arith, Bool-cases, Option-cases, nat_eq, string_eq, Result, Result-cases, ok,
  err, ◌>>=◌, beq_refl, bind-ok, length, drop, all, any,
}
use mathlib.Core.List.{Memᴰ}
use jupyter_pair_ext.Base.Codes.{Text, text_eqb, text_eqb_iff}
use jupyter_pair_ext.ProjectPath.{safe_relative_path}
use jupyter_pair_ext.Workspace.{
  is_within, parents, ErrorCode, invalid_path, Visibility, StoredEntry, Manifest, Limits,
  is_private, find_entry, is_directory, new_directory, ensure_each, ensure_parents,
  is_publication_id,
}
use jupyter_pair_ext.Workspace.Operations.{
  has_publication, publish_id, has_parents, normalize_path, make_directory, rename_entry,
  move_entries, remove_entry, validate_entries, mutate,
}
use jupyter_pair_ext.Workspace.Privacy.{
  rename_normalized-ok, Keeps, keeps, make_directory-Keeps, rename_entry-Keeps, remove_entry-Keeps,
}
use jupyter_pair_ext.Workspace.Moves.{rename_normalized-private}

pub data Operation : Type 0 where
  make : Text → Option Visibility → Operation
  move : Text → Text → Operation
  delete : Text → Operation

unfoldable pub apply : (Text → Text) → ℕ → Bool → Operation → Manifest → Result ErrorCode Manifest
apply normalize now owner (make value visibility) m =
    make_directory normalize now value owner visibility m
apply normalize now owner (move value new_value) m =
    rename_entry normalize now value new_value owner m
apply normalize now owner (delete value) m = remove_entry normalize value owner m

text_eqb_refl : (a : Text) → text_eqb a a ≡ true
text_eqb_refl a = (text_eqb_iff a a).1 refl

any-last :
    {A : Type 0} → (p : A → Bool) (xs : List A) (x : A) → p x ≡ true → any p (xs ++ (x ∷ [])) ≡ true
any-last p [] x h = rw h refl
any-last p (y ∷ xs) x h = ground (arith, any-last p xs x h)

publish_id-entries : (id : Option Text) (m : Manifest) → m.entries ≡ (publish_id id m).entries
unfolding publish_id
publish_id-entries none m = refl
publish_id-entries (some id) m = refl

abbrev pub was_published : Option Text → Manifest → Bool
was_published none m = false
was_published (some id) m = has_publication id m

normalize_path-same :
    (normalize : Text → Text) (value : Text) {name : Text}
    → normalize_path normalize value ≡ ok name
    → name ≡ value
unfolding normalize_path
normalize_path-same normalize value {name} h =
    elim (Option-cases (safe_relative_path normalize value)) [
      | inl e ↦ let h' : err invalid_path ≡ ok name = simp (e, normalize_path) at h in cc h'
      | inr (n, e) ↦ elim (Bool-cases (text_eqb n value)) [
        | inl t ↦
            let h' : ok n ≡ ok name = simp (e, t, normalize_path) at h in
            cc (h', (text_eqb_iff n value).0 t)
        | inr t ↦ let h' : err invalid_path ≡ ok name = simp (e, t, normalize_path) at h in cc h'
      ]
    ]

ensure_each-revision :
    (now : ℕ) (ps : List Text) (m : Manifest) {m' : Manifest}
    → ensure_each now ps m ≡ ok m'
    → m'.revision ≡ m.revision
unfolding ensure_each
ensure_each-revision now [] m h = ground (arith, h)
ensure_each-revision now (p ∷ ps) m {m'} h = elim (Option-cases (find_entry p m.entries)) [
  | inl k ↦
      let larger : Manifest = record m {
        entries = m.entries ++ (new_directory now p none m.revision ∷ []);
      } in
      let h' : ensure_each now ps larger ≡ ok m' = simp (k, ensure_each) at h in
      ensure_each-revision now ps larger h'
  | inr (d, k) ↦ elim (Bool-cases (is_directory d)) [
    | inl t ↦
        let h' : ensure_each now ps m ≡ ok m' = simp (k, t, ensure_each) at h in
        ensure_each-revision now ps m h'
    | inr t ↦ let h' : err invalid_path ≡ ok m' = simp (k, t, ensure_each) at h in cc h'
  ]
]

apply-revision :
    (normalize : Text → Text) (now : ℕ) (owner : Bool) (o : Operation) (m : Manifest)
    {m' : Manifest}
    → apply normalize now owner o m ≡ ok m'
    → m'.revision ≡ m.revision
unfolding apply make_directory rename_entry remove_entry ensure_parents move_entries
apply-revision normalize now owner (make value v) m {m'} h =
    let (name, _, h1) = bind-ok (normalize_path normalize value) _ h in
    let add : Manifest → Manifest = λ made. record made {
      entries = made.entries ++ (new_directory now name v m.revision ∷ []);
    } in
    let h4 : (ensure_each now (parents name) m >>= λ made. ok (add made)) ≡ ok m' =
      ground (arith, h1) in
    let (made, grown, same) = bind-ok (ensure_each now (parents name) m) _ h4 in
    let r : m'.revision ≡ made.revision = ground (arith, same) in
    r ∙ ensure_each-revision now (parents name) m grown
apply-revision normalize now owner (move value new_value) m {m'} h =
    let (name, _, h1) = bind-ok (normalize_path normalize value) _ h in
    let (target, _, h2) = bind-ok (normalize_path normalize new_value) _ h1 in
    let (made, _, _, grown, same) = rename_normalized-ok now name target owner m h2 in
    ap (λ (x : Manifest). x.revision) (sym same) ∙ ensure_each-revision now (parents target) m grown
apply-revision normalize now owner (delete value) m h =
    let (name, _, h1) = bind-ok (normalize_path normalize value) _ h in ground (arith, h1)

publish_id-published :
    (id : Text) (m : Manifest) → has_publication id (publish_id (some id) m) ≡ true
unfolding publish_id has_publication
publish_id-published id m = elim (Option-cases m.publications) [
  | inl e ↦ simp (e, text_eqb_refl id) refl
  | inr (ids, e) ↦ simp e (any-last (text_eqb id) ids id (text_eqb_refl id))
]

publish_id-revision : (id : Option Text) (m : Manifest) → (publish_id id m).revision ≡ m.revision
unfolding publish_id
publish_id-revision none m = refl
publish_id-revision (some id) m = refl

module _ (normalize fold : Text → Text) (limits : Limits) (manifest_bytes : Manifest → ℕ) where
  -- A change that succeeds was asked for at the current revision; it was published before and
  -- nothing happens, or it is a valid next manifest.
  mutate-ok :
      (expected : ℕ) (change : Manifest → Result ErrorCode Manifest) (id : Option Text)
      (m : Manifest) {m' : Manifest}
      → mutate normalize fold limits manifest_bytes expected change id m ≡ ok m'
      → (expected ≡ m.revision)
        × (((m ≡ m') × (was_published id m ≡ true))
            ⊎ ((changed : Manifest) × (change (record m { revision = m.revision + 1 }) ≡ ok changed)
                × (publish_id id changed ≡ m')
                × (validate_entries normalize fold limits manifest_bytes m' ≡ ok tt)))
  unfolding mutate
  mutate-ok expected change id m {m'} h =
      let start : Manifest = record m { revision = m.revision + 1 } in
      elim (Result-cases (change start)) [
        | inr (x, e) ↦ ground (arith, h, e)
        | inl (changed, e) ↦
            elim (Result-cases
              (validate_entries normalize fold limits manifest_bytes (publish_id id changed))) [
                | inr (x, v) ↦ ground (arith, h, e, v)
                | inl (tt, v) ↦
                    let outcome : ((m ≡ m') × (was_published id m ≡ true))
                        ⊎ (publish_id id changed ≡ m') =
                      ground (arith, h, e, v) in
                    (
                      ground (arith, h),
                      elim outcome [
                        | inl same ↦ inl same
                        | inr new ↦ inr (
                          changed,
                          e,
                          new,
                          subst
                              (λ x. validate_entries normalize fold limits manifest_bytes x ≡ ok tt)
                              new v,
                        )
                      ],
                    )
              ]
      ]

  validate_entries-parents :
      (m : Manifest)
      → validate_entries normalize fold limits manifest_bytes m ≡ ok tt
      → all (has_parents m.entries) m.entries ≡ true
  unfolding validate_entries
  validate_entries-parents m h = ground (arith, h)

  member_operation-Keeps :
      (now expected : ℕ) (operation : Operation) (id : Option Text) (m : Manifest) {m' : Manifest}
      → mutate normalize fold limits manifest_bytes expected
          (apply normalize now false operation)
          id
          m
        ≡ ok m'
      → Keeps m m'
  unfolding apply
  member_operation-Keeps now expected operation id m {m'} h =
      elim (mutate-ok expected (apply normalize now false operation) id m h).1 [
        | inl (same, _) ↦ subst (Keeps m) same (keeps m m (λ e there p. there))
        | inr (changed, done, new, _) ↦
            let start : Manifest = record m { revision = m.revision + 1 } in
            let k : Keeps start changed = operation-Keeps operation start done in
            Keeps-publish changed new k
      ]
    where
      operation-Keeps :
          (o : Operation) (m : Manifest) {m' : Manifest}
          → apply normalize now false o m ≡ ok m'
          → Keeps m m'
      operation-Keeps (make value v) m h = make_directory-Keeps normalize now value v m h
      operation-Keeps (move value new) m h = rename_entry-Keeps normalize now value new m h
      operation-Keeps (delete value) m h = remove_entry-Keeps normalize value m h

      Keeps-publish :
          (changed : Manifest)
          → publish_id id changed ≡ m'
          → Keeps (record m { revision = m.revision + 1 }) changed
          → Keeps m m'
      Keeps-publish changed new k =
          let same = publish_id-entries id changed ∙ ap (λ (x : Manifest). x.entries) new in
          record {
            kept = λ e there p. subst (Memᴰ e) same (k.kept e there p);
            still_private =
                λ name p. subst (λ es. is_private name es ≡ true) same (k.still_private name p);
          }

  -- A member's operation that succeeds keeps every private entry exactly as it is.
  pub member_operation-kept :
      (now expected : ℕ) (operation : Operation) (id : Option Text) (m : Manifest) (e : StoredEntry)
      {m' : Manifest}
      → mutate normalize fold limits manifest_bytes expected
          (apply normalize now false operation)
          id
          m
        ≡ ok m'
      → Memᴰ e m.entries
      → is_private e.path m.entries ≡ true
      → Memᴰ e m'.entries
  member_operation-kept now expected operation id m e h there secret =
      let k = member_operation-Keeps now expected operation id m h in k.kept e there secret

  -- After a member's operation that succeeds every path is private that was private before.
  pub member_operation-private :
      (now expected : ℕ) (operation : Operation) (id : Option Text) (m : Manifest) (name : Text)
      {m' : Manifest}
      → mutate normalize fold limits manifest_bytes expected
          (apply normalize now false operation)
          id
          m
        ≡ ok m'
      → is_private name m.entries ≡ true
      → is_private name m'.entries ≡ true
  member_operation-private now expected operation id m name h secret =
      let k = member_operation-Keeps now expected operation id m h in k.still_private name secret

  -- A rename that succeeds, the owner's too, never publishes what was private: a private path
  -- within the renamed one is private at its new place.
  pub rename-private :
      (now expected : ℕ) (value new_value : Text) (owner : Bool) (m : Manifest) (p : Text)
      {m' : Manifest}
      → mutate normalize fold limits manifest_bytes expected
          (apply normalize now owner (move value new_value))
          none
          m
        ≡ ok m'
      → is_within p value ≡ true
      → is_private p m.entries ≡ true
      → is_private (new_value ++ drop (length value) p) m'.entries ≡ true
  unfolding apply publish_id rename_entry
  rename-private now expected value new_value owner m p {m'} h inside secret =
      elim (mutate-ok expected (apply normalize now owner (move value new_value)) none m h).1 [
        | inl (_, never) ↦ cc never
        | inr (changed, done, new, _) ↦
            let start : Manifest = record m { revision = m.revision + 1 } in
            let (name, e1, h1) = bind-ok (normalize_path normalize value) _ done in
            let (target, e2, h2) = bind-ok (normalize_path normalize new_value) _ h1 in
            let at : is_private (target ++ drop (length name) p) changed.entries ≡ true =
              rename_normalized-private now name target owner start p h2
                (subst (λ x. is_within p x ≡ true) (sym (normalize_path-same normalize value e1))
                  inside)
                secret in
            let moved_at : new_value ++ drop (length value) p ≡ target ++ drop (length name) p =
              ap (λ x. x ++ drop (length value) p)
                (sym (normalize_path-same normalize new_value e2))
              ∙ ap (λ x. target ++ drop (length x) p)
                  (sym (normalize_path-same normalize value e1)) in
            subst
              (λ (x : Manifest). is_private (new_value ++ drop (length value) p) x.entries ≡ true)
              new (subst (λ x. is_private x changed.entries ≡ true) (sym moved_at) at)
      ]

  -- A change that succeeds was asked for at the manifest's revision. It leaves the manifest as it
  -- is, when its publication id was published before, or gives the next revision, in which the id
  -- is published and each entry's proper ancestors are directories.
  pub mutate-revision :
      (now expected : ℕ) (owner : Bool) (operation : Operation) (id : Option Text) (m : Manifest)
      {m' : Manifest}
      → mutate normalize fold limits manifest_bytes expected
          (apply normalize now owner operation)
          id
          m
        ≡ ok m'
      → (expected ≡ m.revision)
        × (((m ≡ m') × (was_published id m ≡ true))
            ⊎ ((m'.revision ≡ m.revision + 1)
                × ((q : Text) → id ≡ some q → has_publication q m' ≡ true)
                × (all (has_parents m'.entries) m'.entries ≡ true)))
  mutate-revision now expected owner operation id m {m'} h =
      let (current, outcome) = mutate-ok expected (apply normalize now owner operation) id m h in
      (
        current,
        elim outcome [
          | inl same ↦ inl same
          | inr (changed, done, new, valid) ↦ inr (
            ap (λ (x : Manifest). x.revision) (sym new)
                ∙ publish_id-revision id changed
                ∙ apply-revision normalize now owner operation
                    (record m { revision = m.revision + 1 }) done,
            λ q e.
                subst (λ x. has_publication q x ≡ true)
                  (ap (λ i. publish_id i changed) (sym e) ∙ new) (publish_id-published q changed),
            validate_entries-parents m' valid,
          )
        ],
      )

  -- A publication that succeeded is not made twice: the same call at the new revision succeeds
  -- and changes nothing.
  pub mutate-published :
      (expected : ℕ) (change : Manifest → Result ErrorCode Manifest) (id : Text) (m : Manifest)
      {m' : Manifest}
      → mutate normalize fold limits manifest_bytes expected change (some id) m ≡ ok m'
      → mutate normalize fold limits manifest_bytes m'.revision change (some id) m' ≡ ok m'
  unfolding mutate
  mutate-published expected change id m {m'} h =
      let well_formed : is_publication_id id ≡ true = ground (arith, h) in
      let there : has_publication id m' ≡ true = elim (mutate-ok expected change (some id) m h).1 [
        | inl (same, was) ↦ subst (λ x. has_publication id x ≡ true) same was
        | inr (changed, _, new, _) ↦
            subst (λ x. has_publication id x ≡ true) new (publish_id-published id changed)
      ] in
      simp (beq_refl m'.revision, well_formed, there) refl
