-- ===== src/Storage/Done.antt =====
-- What `flushOne` has done with a path when it returns (src/core/persistence.ts).
use jupyter_pair_ext.Base.{
  ℕ, ◌≡◌, refl, sym, ◌∙◌, subst, inl, inr, true, false, Option, none, some, List, [], ◌∷◌, ◌++◌,
  arith, Bool-cases, nat_eq, string_eq, Result, ok, err,
}
use jupyter_pair_ext.Base.Codes.{Text, text_eq, text_eqb_iff}
use jupyter_pair_ext.Storage.{Failure, Bytes, World, Action, after, pure, Host}
use jupyter_pair_ext.Storage.State.{resolve_current_path, is_removed}
use jupyter_pair_ext.Storage.Operations.{
  flush_one, current, removed_now, flush_current, write_final, write_unless_removed, write_copies,
  serialize_current,
}
use jupyter_pair_ext.Storage.Requeue.{is_in-append, is_in}

-- what `flushOne` adds to the list
abbrev pub and_flushed : Option Text → List Text → List Text
and_flushed none flushed = flushed
and_flushed (some path) flushed = flushed ++ (path ∷ [])

module _ {D : Type 0} where
  after-ok :
      {A B : Type 0} (x : Result Failure A × World D) (f : A → Action D B) {b : B} {w : World D}
      → after x f ≡ (ok b, w)
      → (a : A) × (v : World D) × (x ≡ (ok a, v)) × (f a v ≡ (ok b, w))
  after-ok (ok a, v) f h = (a, v, refl, h)
  after-ok (err e, v) f h = cc h

module _ {D : Type 0} (host : Host D) (fuel debounce : ℕ) (working_root : Text) where
  -- What a path that the loop took off the list has become, by the world in which `flushOne` was
  -- called: its current path was removed at once, or once the bytes were there; or all its copies
  -- were written, in the world that the serialization left, and the path is reported.
  pub data Done (p : Text) (u : World D) (flushed : List Text) : Type 0 where
    skipped :
        (c : Text)
        → resolve_current_path fuel u.adapter p ≡ ok c
        → is_removed u.adapter c ≡ true
        → Done p u flushed
    dropped :
        (d c : Text) (x : Bytes × Text) (v : World D)
        → resolve_current_path fuel u.adapter p ≡ ok d
        → serialize_current host fuel debounce working_root p d u ≡ (ok x, v)
        → resolve_current_path fuel v.adapter p ≡ ok c
        → is_removed v.adapter c ≡ true
        → Done p u flushed
    written :
        (d c : Text) (x : Bytes × Text) (v w : World D)
        → resolve_current_path fuel u.adapter p ≡ ok d
        → serialize_current host fuel debounce working_root p d u ≡ (ok x, v)
        → resolve_current_path fuel v.adapter p ≡ ok c
        → is_removed v.adapter c ≡ false
        → write_copies host fuel debounce working_root c x.0 v ≡ (ok tt, w)
        → is_in c flushed ≡ true
        → Done p u flushed

  write-keep :
      (path : Text) (bytes : Bytes) (u : World D)
      → is_removed u.adapter path ≡ false
      → write_unless_removed host fuel debounce working_root bytes path u
        ≡ after (write_copies host fuel debounce working_root path bytes u) (λ x. pure (some path))
  unfolding write_unless_removed removed_now
  write-keep path bytes u n = simp n refl

  current-ok :
      (p : Text) (u : World D) (f : Text → Action D (Option Text)) (o : Option Text) (w : World D)
      → after (current host fuel debounce working_root p u) f ≡ (ok o, w)
      → (c : Text) × (resolve_current_path fuel u.adapter p ≡ ok c) × (f c u ≡ (ok o, w))
  unfolding current
  current-ok p u f o w h =
      let (c, v, e, k) = after-ok (resolve_current_path fuel u.adapter p, u) f h in
      let first : resolve_current_path fuel u.adapter p ≡ ok c = cc e in
      let second : u ≡ v = cc e in (c, first, subst (λ x. f c x ≡ (ok o, w)) (sym second) k)

  current-keep :
      (p path : Text) (u : World D)
      → is_removed u.adapter path ≡ false
      → flush_current host fuel debounce working_root p path u
        ≡ after
            (serialize_current host fuel debounce working_root p path u)
            (write_final host fuel debounce working_root p)
  unfolding flush_current removed_now
  current-keep p path u n = simp n refl

  write-Done :
      (p d c : Text) (x : Bytes × Text) (u v w : World D) (o : Option Text) (flushed : List Text)
      → resolve_current_path fuel u.adapter p ≡ ok d
      → serialize_current host fuel debounce working_root p d u ≡ (ok x, v)
      → resolve_current_path fuel v.adapter p ≡ ok c
      → write_unless_removed host fuel debounce working_root x.0 c v ≡ (ok o, w)
      → Done p u (and_flushed o flushed)
  write-Done p d c x u v w o flushed first s e h = elim (Bool-cases (is_removed v.adapter c)) [
    | inl t ↦ dropped d c x v first s e t
    | inr n ↦
        let copies = write_copies host fuel debounce working_root c x.0 v in
        let (y, z, wrote, last) =
          after-ok copies (λ y. pure (some c)) (sym (write-keep c x.0 v n) ∙ h) in
        let o_is : some c ≡ o = cc last in
        subst (λ (o' : Option Text). Done p u (and_flushed o' flushed)) o_is
          (written d c x v z first s e n wrote ground
            (arith, is_in-append c flushed (c ∷ []), text_eqb_iff c c))
  ]

  final-Done :
      (p d : Text) (x : Bytes × Text) (u v w : World D) (o : Option Text) (flushed : List Text)
      → resolve_current_path fuel u.adapter p ≡ ok d
      → serialize_current host fuel debounce working_root p d u ≡ (ok x, v)
      → write_final host fuel debounce working_root p x v ≡ (ok o, w)
      → Done p u (and_flushed o flushed)
  unfolding write_final
  final-Done p d (bytes, path) u v w o flushed first s h =
      let (c, e, k) =
        current-ok p v (write_unless_removed host fuel debounce working_root bytes) o w h in
      write-Done p d c (bytes, path) u v w o flushed first s e k

  flush_current-Done :
      (p path : Text) (u w : World D) (o : Option Text) (flushed : List Text)
      → resolve_current_path fuel u.adapter p ≡ ok path
      → flush_current host fuel debounce working_root p path u ≡ (ok o, w)
      → Done p u (and_flushed o flushed)
  flush_current-Done p path u w o flushed e h = elim (Bool-cases (is_removed u.adapter path)) [
    | inl t ↦ skipped path e t
    | inr n ↦
        let (b, v, s, k) =
          after-ok (serialize_current host fuel debounce working_root p path u)
            (write_final host fuel debounce working_root p) (sym (current-keep p path u n) ∙ h) in
        final-Done p path b u v w o flushed e s k
  ]

  pub flush_one-Done :
      (p : Text) (u w : World D) (o : Option Text) (flushed : List Text)
      → flush_one host fuel debounce working_root p u ≡ (ok o, w)
      → Done p u (and_flushed o flushed)
  unfolding flush_one
  flush_one-Done p u w o flushed h =
      let (c, e, k) = current-ok p u (flush_current host fuel debounce working_root p) o w h in
      flush_current-Done p c u w o flushed e k

  -- what has been taken off stays so when more is flushed
  pub Done-more :
      (p : Text) (u : World D) (flushed more : List Text)
      → Done p u flushed
      → Done p u (flushed ++ more)
  Done-more p u flushed more (skipped c e t) = skipped c e t
  Done-more p u flushed more (dropped d c x v f s e t) = dropped d c x v f s e t
  Done-more p u flushed more (written d c x v w f s e n k m) =
      written d c x v w f s e n k ground (arith, m, is_in-append c flushed more)
