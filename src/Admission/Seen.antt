-- ===== src/Admission/Seen.antt =====
-- Duplicate detection (src/runtime/mesh.ts, `wasSeen`).
use jupyter_pair_ext.Base.{
  ℕ, suc, String, ◌≡◌, refl, ◌∙◌, inl, inr, true, false, not, ◌&&◌, some, [], ◌∷◌, str_eq, ltb,
  Bool-cases, ◌==◌, nat_eq, string_eq, or_else, beq_refl, length, Map, get, put, has, get-put,
}
use jupyter_pair_ext.Admission.{max_seen_ids_per_peer, forget_oldest, was_seen}

-- the newest id is not forgotten
forget_oldest-newest :
    (ids : Map String ℕ) (id : String) (at : ℕ)
    → has id ids ≡ false
    → has id (forget_oldest (put id at ids)) ≡ true
unfolding forget_oldest put get
forget_oldest-newest [] id at h = rw (beq_refl id) refl
forget_oldest-newest ((x, t) ∷ ids) id at h = elim (Bool-cases (x == id)) [
  | inl e ↦ let h' : true ≡ false = rw e at h in cc h'
  | inr e ↦
      let h' : has id ids ≡ false = rw e at h in
      let later = forget_oldest-newest ids id at h' in
      let kept : get id (put id at ids) ≡ some at = get-put id id at ids ∙ rw (beq_refl id) refl in
      rw e
        (elim (Bool-cases
          (ltb max_seen_ids_per_peer (suc (length (put id at ids))) && not (str_eq x ""))) [
            | inl b ↦ rw b later
            | inr b ↦ rw (b, e, kept) refl
          ])
]

-- A message is a duplicate when it comes again, whenever that is, if nothing came in between:
-- remembering it never forgets it.
pub was_seen_again :
    (now later : ℕ) (source id : String) (seen : Map String (Map String ℕ))
    → (was_seen later source id (was_seen now source id seen).1).0 ≡ true
unfolding was_seen
was_seen_again now later source id seen =
    let ids = or_else (get source seen) [] in
    elim (Bool-cases (has id ids)) [
      | inl t ↦
          let there : get source (put source ids seen) ≡ some ids =
            get-put source source ids seen ∙ rw (beq_refl source) refl in
          simp (t, there, was_seen) refl
      | inr f ↦
          let kept = forget_oldest (put id now ids) in
          let there : get source (put source kept seen) ≡ some kept =
            get-put source source kept seen ∙ rw (beq_refl source) refl in
          simp (f, there, forget_oldest-newest ids id now f, was_seen) refl
    ]
