-- ===== src/Storage/Published.antt =====
-- A file is replaced as a whole or stays as it was (src/core/atomicFile.ts).
use jupyter_pair_ext.Base.{
  refl, sym, ap, none, is_some, Option-cases, ◌+◌, ◌≡◌, ◌∙◌, ◌⊎◌, inl, inr, Bool, true, false, not,
  ◌||◌, Option, some, ◌++◌, arith, if◌then◌else◌, nat_eq, string_eq, Result, ok, err, length, has,
}
use jupyter_pair_ext.Base.Codes.{Text, text_eqb, text_eq}
use jupyter_pair_ext.Base.Js.{codes}
use jupyter_pair_ext.Storage.{
  Failure, Bytes, World, Action, after, ◌>>=◌, ◌>>◌, pure, throw, recover, catch, finally, when,
  FileKind, regular, folder, link, special, Host,
}
use jupyter_pair_ext.Storage.Ends.{
  Ends, Ends-after, Ends-recover, Ends-finish, Ends-weaken, Ends-if, Ends-when,
}
use jupyter_pair_ext.Storage.AtomicFile.{
  is_replaceable, is_missing, is_sync_unsupported, temporary_sibling, backup_sibling, ignore,
  sync_parent_directory, try_replace, refuse_directory, check_replaced, set_aside, move_into_place,
  replace_with_backup, publish_temporary_file, write_temporary, atomic_write_file,
}
use jupyter_pair_ext.Storage.DiskLaws.{Moved, Keeps-result, sibling-length, differ, at, Same, Laws}

module _ {D : Type 0} (content : D → Text → Option Bytes) (host : Host D) (laws : Laws content host)
    (target : Text) (old : Option Bytes) (bytes : Bytes) where
  abbrev IsTemporary : Text → Type 0
  IsTemporary t = length t ≡ length target + 55

  -- a name that is made from the target's, a random UUID and an ending
  abbrev IsSibling : Text → Text → Type 0
  IsSibling ending t =
      (uuid : Text) × (length uuid ≡ 36) × (t ≡ target ++ codes ".pair-notebook-" ++ uuid ++ ending)

  abbrev IsBackup : Text → Type 0
  IsBackup b = IsSibling (codes "-backup.tmp") b

  -- the target is as it was; so it is with the new bytes in the temporary file; it has the new
  -- bytes; what it was is in a backup
  abbrev Kept : World D → Type 0
  Kept w = at content w target ≡ old

  abbrev Ready : Text → World D → Type 0
  Ready t w = (at content w target ≡ old) × (at content w t ≡ some bytes)

  abbrev Placed : World D → Type 0
  Placed w = at content w target ≡ some bytes

  abbrev Aside : Text → Text → World D → Type 0
  Aside t b w =
      (at content w b ≡ old) × (at content w t ≡ some bytes) × (at content w target ≡ none)

  abbrev pub Safe : World D → Type 0
  Safe w =
      (at content w target ≡ old)
      ⊎ (at content w target ≡ some bytes)
      ⊎ ((b : Text) × IsBackup b × (at content w b ≡ old) × (is_some old ≡ true))

  sibling_name-length :
      (ending t : Text) → IsSibling ending t → length t ≡ length target + (51 + length ending)
  sibling_name-length ending t (uuid, l, e) = rw e (sibling-length target uuid ending l)

  backup-length : (b : Text) → IsBackup b → length b ≡ length target + 62
  backup-length b i = sibling_name-length (codes "-backup.tmp") b i

  -- where there was no target, none to be kept aside
  backup-Safe :
      (b : Text) (w : World D)
      → IsBackup b
      → at content w b ≡ old
      → at content w target ≡ none
      → Safe w
  backup-Safe b w i k n = elim (Option-cases old) [
    | inl e ↦ inl (n ∙ sym e)
    | inr (x, e) ↦ inr (inr (b, i, k, ap is_some e))
  ]

  unchanged :
      {A : Type 0} (I : World D → Type 0) (w : World D) (x : Result Failure A × World D)
      → ((v : World D) → Same content w v → I w → I v)
      → Same content w x.1
      → I w
      → Ends (λ a v. I v) I x
  unchanged I w x stable s i = Keeps-result I x (stable x.1 s i)

  Kept-stable : (w v : World D) → Same content w v → Kept w → Kept v
  Kept-stable w v s k = s target ∙ k

  Ready-stable : (t : Text) (w v : World D) → Same content w v → Ready t w → Ready t v
  Ready-stable t w v s k = (s target ∙ k.0, s t ∙ k.1)

  Placed-stable : (w v : World D) → Same content w v → Placed w → Placed v
  Placed-stable w v s k = s target ∙ k

  temporary-apart : (t : Text) → IsTemporary t → text_eqb target t ≡ false
  temporary-apart t h = differ target t (λ e. omega (arith, e, h))

  -- the names of the temporary file and of the backup
  sibling :
      (I : World D → Type 0) (s : Text) (w : World D)
      → ((v : World D) → Same content w v → I w → I v)
      → I w
      → Ends
          (λ t v. IsSibling s t × I v)
          I
          ((host.random_uuid >>= λ uuid. pure (target ++ codes ".pair-notebook-" ++ uuid ++ s)) w)
  sibling I s w stable i =
      Ends-after (λ u v. (length u ≡ 36) × Same content w v) (λ t v. IsSibling s t × I v) I
        (host.random_uuid w) (λ uuid. pure (target ++ codes ".pair-notebook-" ++ uuid ++ s))
        (Ends-weaken (λ u v. (length u ≡ 36) × Same content w v)
          (λ u v. (length u ≡ 36) × Same content w v) (λ v. Same content w v) I (host.random_uuid w)
          (λ u v h. h) (λ v h. stable v h i) (laws.uuid_length w))
        (λ u v h. ((u, h.0, refl), stable v h.1 i))

  ignore-keeps :
      (I : World D → Type 0) (m : Action D (Unit {0})) (w : World D)
      → Ends (λ x v. I v) I (m w)
      → Ends (λ x v. I v) I (ignore host m w)
  unfolding ignore
  ignore-keeps I m w h =
      Ends-recover (λ x v. I v) I I (m w) (λ e. pure tt) h (λ v i. i) (λ e v i. i)

  sync_parent_directory-keeps :
      (w : World D) → Placed w → Ends (λ x v. Placed v) Placed (sync_parent_directory host target w)
  unfolding sync_parent_directory
  sync_parent_directory-keeps w k =
      let d = host.dirname target in
      let sync = finally (host.sync_file d) (ignore host (host.close_file d)) in
      Ends-recover (λ x v. Placed v) Placed Placed (after (host.open_file d w) (λ x. sync))
        (λ e. if host.is_linux || not (is_sync_unsupported e) then throw e else pure tt)
        (Ends-after (λ x v. Placed v) (λ x v. Placed v) Placed (host.open_file d w) (λ x. sync)
          (unchanged Placed w (host.open_file d w) (Placed-stable w) (laws.open_same d w) k)
          (λ x v m.
            Ends-finish (λ y u. Placed u) Placed (host.sync_file d v)
              (ignore host (host.close_file d))
              (unchanged Placed v (host.sync_file d v) (Placed-stable v) (laws.sync_same d v) m)
              (λ y u n. close d u n) (λ u n. close d u n)))
        (λ v m. m)
        (λ e v m.
          Ends-if (λ x u. Placed u) Placed (host.is_linux || not (is_sync_unsupported e)) (throw e)
            (pure tt) v m m)
    where
      close :
          (d : Text) (u : World D)
          → Placed u
          → Ends (λ x v. Placed v) Placed (ignore host (host.close_file d) u)
      close d u n =
          ignore-keeps Placed (host.close_file d) u
            (unchanged Placed u (host.close_file d u) (Placed-stable u) (laws.close_same d u) n)

  move-temporary :
      (t : Text) (w : World D)
      → IsTemporary t
      → Ready t w
      → Ends (λ x v. Placed v) (Ready t) (host.move_file t target w)
  move-temporary t w h k =
      Ends-weaken (λ x v. Moved content t target w v) (λ x v. Placed v) (λ v. Same content w v)
        (Ready t) (host.move_file t target w) (λ x v m. m.0 ∙ k.1) (λ v s. Ready-stable t w v s k)
        (laws.move_moves t target w)

  refuse_directory-keeps :
      (t : Text) (kind : FileKind) (w : World D)
      → Ready t w
      → Ends (λ x v. Ready t v) (Ready t) (refuse_directory host kind w)
  refuse_directory-keeps t folder w k = k
  refuse_directory-keeps t regular w k = k
  refuse_directory-keeps t link w k = k
  refuse_directory-keeps t special w k = k

  check_replaced-keeps :
      (t : Text) (w : World D)
      → Ready t w
      → Ends (λ x v. Ready t v) (Ready t) (check_replaced host target w)
  unfolding check_replaced
  check_replaced-keeps t w k =
      Ends-recover (λ x v. Ready t v) (Ready t) (Ready t)
        (after (host.lstat target w) (refuse_directory host))
        (λ e. if is_missing e then pure tt else throw e)
        (Ends-after (λ x v. Ready t v) (λ x v. Ready t v) (Ready t) (host.lstat target w)
          (refuse_directory host)
          (unchanged (Ready t) w (host.lstat target w) (Ready-stable t w) (laws.lstat_same target w)
            k)
          (refuse_directory-keeps t))
        (λ v m. m)
        (λ e v m. Ends-if (λ x u. Ready t u) (Ready t) (is_missing e) (pure tt) (throw e) v m m)

  abbrev AfterReplace : Text → Bool → World D → Type 0
  AfterReplace t true = Placed
  AfterReplace t false = Ready t

  try_replace-Ends :
      (t : Text) (w : World D)
      → IsTemporary t
      → Ready t w
      → Ends (AfterReplace t) (Ready t) (try_replace host t target w)
  unfolding try_replace
  try_replace-Ends t w h k =
      Ends-recover (AfterReplace t) (Ready t) (Ready t)
        (after (host.move_file t target w) (λ x. pure true))
        (λ e. if is_replaceable e then pure false else throw e)
        (Ends-after (λ x v. Placed v) (AfterReplace t) (Ready t) (host.move_file t target w)
          (λ x. pure true) (move-temporary t w h k) (λ x v m. m))
        (λ v m. m)
        (λ e v m.
          Ends-if (AfterReplace t) (Ready t) (is_replaceable e) (pure false) (throw e) v m m)

  -- the target may have been kept aside
  abbrev AfterAside : Text → Text → Bool → World D → Type 0
  AfterAside t b true = Aside t b
  AfterAside t b false = Ready t

  set_aside-Ends :
      (t b : Text) (w : World D)
      → IsTemporary t
      → IsBackup b
      → Ready t w
      → Ends (AfterAside t b) (Ready t) (set_aside host target b w)
  unfolding set_aside
  set_aside-Ends t b w h i k =
      Ends-recover (AfterAside t b) (Ready t) (Ready t)
        (after (host.move_file target b w) (λ x. pure true))
        (λ e. if is_missing e then pure false else throw e)
        (Ends-after (λ x v. Aside t b v) (AfterAside t b) (Ready t) (host.move_file target b w)
          (λ x. pure true)
          (Ends-weaken (λ x v. Moved content target b w v) (λ x v. Aside t b v)
            (λ v. Same content w v) (Ready t) (host.move_file target b w)
            (λ x v m. (
              m.0 ∙ k.0,
              m.1 t (differ t target (λ e. omega (arith, e, h)))
                    (differ t b (λ e. omega (arith, e, h, backup-length b i)))
                  ∙ k.1,
              m.2 (differ target b (λ e. omega (arith, e, backup-length b i))),
            ))
            (λ v s. Ready-stable t w v s k) (laws.move_moves target b w))
          (λ x v m. m))
        (λ v m. m)
        (λ e v m. Ends-if (AfterAside t b) (Ready t) (is_missing e) (pure false) (throw e) v m m)

  -- a failed move puts the backup back, or leaves it
  move_back-Safe :
      (t b : Text) (w : World D)
      → IsBackup b
      → Aside t b w
      → Ends (λ x v. Safe v) Safe (ignore host (host.move_file b target) w)
  move_back-Safe t b w i k = ignore-keeps Safe (host.move_file b target) w (
      Ends-weaken (λ x v. Moved content b target w v) (λ x v. Safe v) (λ v. Same content w v) Safe
        (host.move_file b target w) (λ x v m. inl (m.0 ∙ k.0))
        (λ v s. backup-Safe b v i (s b ∙ k.0) (s target ∙ k.2)) (laws.move_moves b target w))

  restore-Safe :
      (t b : Text) (has : Bool) (e : Failure) (w : World D)
      → IsBackup b
      → AfterAside t b has w
      → Ends {A = Unit {0}}
          (λ x v. Placed v)
          Safe
          (after (when has (ignore host (host.move_file b target)) w) (λ x. throw e))
  restore-Safe t b true e w i k =
      Ends-after (λ x v. Safe v) (λ x v. Placed v) Safe (ignore host (host.move_file b target) w)
        (λ x. throw e) (move_back-Safe t b w i k) (λ x v m. m)
  restore-Safe t b false e w i k = inl k.0

  move_now-Ends :
      (t b : Text) (has : Bool) (w : World D)
      → IsTemporary t
      → IsBackup b
      → AfterAside t b has w
      → Ends (λ x v. Placed v) (AfterAside t b has) (host.move_file t target w)
  move_now-Ends t b false w h i k = move-temporary t w h k
  move_now-Ends t b true w h i k =
      Ends-weaken (λ x v. Moved content t target w v) (λ x v. Placed v) (λ v. Same content w v)
        (Aside t b) (host.move_file t target w) (λ x v m. m.0 ∙ k.1)
        (λ v s. (s b ∙ k.0, s t ∙ k.1, s target ∙ k.2)) (laws.move_moves t target w)

  delete_backup-Placed :
      (b : Text) (w : World D)
      → IsBackup b
      → Placed w
      → Ends (λ x v. Placed v) Placed (host.delete_file b w)
  delete_backup-Placed b w i k =
      Keeps-result Placed (host.delete_file b w) (
        laws.delete_only b w target (differ target b (λ e. omega (arith, e, backup-length b i)))
        ∙ k)

  Placed-Safe : (w : World D) → Placed w → Safe w
  Placed-Safe w k = inr (inl k)

  aside-Safe :
      (t b : Text) (has : Bool) → IsBackup b → (w : World D) → AfterAside t b has w → Safe w
  aside-Safe t b true i w k = backup-Safe b w i k.0 k.2
  aside-Safe t b false i w k = inl k.0

  abbrev back : Text → Text → Bool → Failure → Action D (Unit {0})
  back t b has e = when has (ignore host (host.move_file b target)) >> throw e

  safely :
      (x : Result Failure (Unit {0}) × World D)
      → Ends (λ y v. Placed v) Placed x
      → Ends (λ y v. Placed v) Safe x
  safely x h =
      Ends-weaken (λ y v. Placed v) (λ y v. Placed v) Placed Safe x (λ y v m. m) Placed-Safe h

  readily :
      (t : Text) (x : Result Failure (Unit {0}) × World D)
      → Ends (λ y v. Ready t v) (Ready t) x
      → Ends (λ y v. Ready t v) Safe x
  readily t x h =
      Ends-weaken (λ y v. Ready t v) (λ y v. Ready t v) (Ready t) Safe x (λ y v m. m)
        (λ v m. inl m.0) h

  move_into_place-Ends :
      (t b : Text) (has : Bool) (w : World D)
      → IsTemporary t
      → IsBackup b
      → AfterAside t b has w
      → Ends (λ x v. Placed v) Safe (move_into_place host t target b has w)
  unfolding move_into_place
  move_into_place-Ends t b has w h i k =
      Ends-after (λ x v. Placed v) (λ x v. Placed v) Safe
        (after (recover (host.move_file t target w) (back t b has))
          (λ x. when has (host.delete_file b)))
        (λ x. sync_parent_directory host target)
        (Ends-after (λ x v. Placed v) (λ x v. Placed v) Safe
          (recover (host.move_file t target w) (back t b has)) (λ x. when has (host.delete_file b))
          (Ends-recover (λ x v. Placed v) (AfterAside t b has) Safe (host.move_file t target w)
            (back t b has) (move_now-Ends t b has w h i k) (aside-Safe t b has i)
            (λ e v m. restore-Safe t b has e v i m))
          (λ x v m.
            Ends-when Placed Safe has (host.delete_file b) v m
              (λ e. safely (host.delete_file b v) (delete_backup-Placed b v i m))))
        (λ x v m. safely (sync_parent_directory host target v) (sync_parent_directory-keeps v m))

  replace_with_backup-Ends :
      (t : Text) (w : World D)
      → IsTemporary t
      → Ready t w
      → Ends (λ x v. Placed v) Safe (replace_with_backup host t target w)
  unfolding replace_with_backup backup_sibling
  replace_with_backup-Ends t w h k =
      let aside : Text → Action D (Unit {0}) =
        λ b. set_aside host target b >>= move_into_place host t target b in
      Ends-after (λ x v. Ready t v) (λ x v. Placed v) Safe (check_replaced host target w)
        (λ x. backup_sibling host target >>= aside)
        (readily t (check_replaced host target w) (check_replaced-keeps t w k))
        (λ x v m.
          Ends-after (λ b u. IsBackup b × Ready t u) (λ y u. Placed u) Safe
            (backup_sibling host target v) aside
            (Ends-weaken (λ b u. IsBackup b × Ready t u) (λ b u. IsBackup b × Ready t u) (Ready t)
              Safe (backup_sibling host target v) (λ b u n. n) (λ u n. inl n.0)
              (sibling (Ready t) (codes "-backup.tmp") v (Ready-stable t v) m))
            (λ b u n.
              Ends-after (AfterAside t b) (λ y z. Placed z) Safe (set_aside host target b u)
                (move_into_place host t target b)
                (Ends-weaken (AfterAside t b) (AfterAside t b) (Ready t) Safe
                  (set_aside host target b u) (λ y z o. o) (λ z o. inl o.0)
                  (set_aside-Ends t b u h n.0 n.1))
                (λ has z o. move_into_place-Ends t b has z h n.0 o)))

  go :
      (t : Text)
      → IsTemporary t
      → (replaced : Bool) (v : World D) → AfterReplace t replaced v
      → Ends
          (λ x u. Placed u)
          Safe
          ((if replaced
              then sync_parent_directory host target
              else replace_with_backup host t target)
            v)
  go t h true v m = safely (sync_parent_directory host target v) (sync_parent_directory-keeps v m)
  go t h false v m = replace_with_backup-Ends t v h m

  publish_temporary_file-Ends :
      (t : Text) (w : World D)
      → IsTemporary t
      → Ready t w
      → Ends (λ x v. Placed v) Safe (publish_temporary_file host t target w)
  unfolding publish_temporary_file
  publish_temporary_file-Ends t w h k =
      Ends-after (AfterReplace t) (λ x v. Placed v) Safe (try_replace host t target w)
        (λ replaced.
          if replaced then sync_parent_directory host target else replace_with_backup host t target)
        (Ends-weaken (AfterReplace t) (AfterReplace t) (Ready t) Safe (try_replace host t target w)
          (λ y z o. o) (λ z o. inl o.0) (try_replace-Ends t w h k))
        (go t h)

  written-Ready :
      (t : Text) (x : Result Failure (Unit {0}) × World D)
      → Kept x.1
      → Ends (λ y v. at content v t ≡ some bytes) (λ v. Unit) x
      → Ends (λ y v. Ready t v) Kept x
  written-Ready t (ok y, v) k h = (k, h)
  written-Ready t (err e, v) k h = k

  keptly :
      (t : Text) (x : Result Failure (Unit {0}) × World D)
      → Ends (λ y v. Ready t v) (Ready t) x
      → Ends (λ y v. Ready t v) Kept x
  keptly t x h =
      Ends-weaken (λ y v. Ready t v) (λ y v. Ready t v) (Ready t) Kept x (λ y v m. m) (λ v m. m.0) h

  kept :
      (x : Result Failure (Unit {0}) × World D)
      → Ends (λ y v. Kept v) Kept x
      → Ends (λ y v. Kept v) Safe x
  kept x h = Ends-weaken (λ y v. Kept v) (λ y v. Kept v) Kept Safe x (λ y v m. m) (λ v m. inl m) h

  write_temporary-Ends :
      (t : Text) (w : World D)
      → IsTemporary t
      → Kept w
      → Ends (λ x v. Ready t v) Kept (write_temporary host t bytes w)
  unfolding write_temporary
  write_temporary-Ends t w h k =
      let apart = temporary-apart t h in
      let write = host.write_file t bytes >> host.sync_file t in
      Ends-after (λ x v. Kept v) (λ x v. Ready t v) Kept (host.create t w)
        (λ x. finally write (host.close_file t))
        (Keeps-result Kept (host.create t w) (laws.create_only t w target apart ∙ k))
        (λ x v m.
          Ends-finish (λ y u. Ready t u) Kept (write v) (host.close_file t)
            (Ends-after (λ y u. Ready t u) (λ y u. Ready t u) Kept (host.write_file t bytes v)
              (λ y. host.sync_file t)
              (written-Ready t (host.write_file t bytes v)
                (laws.write_only t bytes v target apart ∙ m) (laws.write_content t bytes v))
              (λ y u n. keptly t (host.sync_file t u) (
                unchanged (Ready t) u (host.sync_file t u) (Ready-stable t u) (laws.sync_same t u)
                  n)))
            (λ y u n. keptly t (host.close_file t u) (
              unchanged (Ready t) u (host.close_file t u) (Ready-stable t u) (laws.close_same t u)
                n))
            (λ u n. unchanged Kept u (host.close_file t u) (Kept-stable u) (laws.close_same t u) n))

  delete_temporary-Safe :
      (t : Text) (w : World D)
      → IsTemporary t
      → Safe w
      → Ends (λ x v. Safe v) Safe (host.delete_file t w)
  delete_temporary-Safe t w h k =
      let apart = temporary-apart t h in
      let only = laws.delete_only t w in
      Keeps-result Safe (host.delete_file t w) (elim k [
        | inl a ↦ inl (only target apart ∙ a)
        | inr (inl a) ↦ inr (inl (only target apart ∙ a))
        | inr (inr (b, i, a, there)) ↦ inr (
            inr
              (b, i, only b (differ b t (λ e. omega (arith, e, h, backup-length b i))) ∙ a, there))
      ])

  -- what follows the name of the temporary file
  abbrev publish : Text → Action D (Unit {0})
  publish t =
      catch (write_temporary host t bytes >> publish_temporary_file host t target)
        (λ e. ignore host (host.delete_file t) >> throw e)

  publish-Ends :
      (t : Text) (w : World D) → IsTemporary t → Kept w → Ends (λ x v. Placed v) Safe (publish t w)
  publish-Ends t w h k =
      Ends-recover (λ x v. Placed v) Safe Safe
        (after (write_temporary host t bytes w) (λ x. publish_temporary_file host t target))
        (λ e. ignore host (host.delete_file t) >> throw e)
        (Ends-after (λ x v. Ready t v) (λ x v. Placed v) Safe (write_temporary host t bytes w)
          (λ x. publish_temporary_file host t target)
          (Ends-weaken (λ x v. Ready t v) (λ x v. Ready t v) Kept Safe
            (write_temporary host t bytes w) (λ y v m. m) (λ v m. inl m)
            (write_temporary-Ends t w h k))
          (λ x v m. publish_temporary_file-Ends t v h m))
        (λ v m. m)
        (λ e v m.
          Ends-after (λ x u. Safe u) (λ x u. Placed u) Safe (ignore host (host.delete_file t) v)
            (λ x. throw e)
            (ignore-keeps Safe (host.delete_file t) v (delete_temporary-Safe t v h m)) (λ x u n. n))

  -- A write that succeeds leaves the new bytes at the target. One that fails leaves the target as
  -- it was or with the new bytes, or else there was a target and what it was is in a backup beside
  -- it, whose name is the target's, ".pair-notebook-", a UUID and "-backup.tmp".
  pub atomic_write_file-Safe :
      (w : World D)
      → at content w target ≡ old
      → Ends (λ x v. at content v target ≡ some bytes) Safe (atomic_write_file host target bytes w)
  unfolding atomic_write_file temporary_sibling
  atomic_write_file-Safe w k =
      Ends-after (λ x v. Kept v) (λ x v. Placed v) Safe (host.mkdir (host.dirname target) w)
        (λ x. temporary_sibling host target >>= publish)
        (kept (host.mkdir (host.dirname target) w) (
          unchanged Kept w (host.mkdir (host.dirname target) w) (Kept-stable w)
            (laws.mkdir_same (host.dirname target) w) k))
        (λ x v m.
          Ends-after (λ t u. IsTemporary t × Kept u) (λ y u. Placed u) Safe
            (temporary_sibling host target v) publish
            (Ends-weaken (λ t u. IsSibling (codes ".tmp") t × Kept u)
              (λ t u. IsTemporary t × Kept u) Kept Safe (temporary_sibling host target v)
              (λ y u n. (sibling_name-length (codes ".tmp") y n.0, n.1)) (λ u n. inl n)
              (sibling Kept (codes ".tmp") v (Kept-stable v) m))
            (λ t u n. publish-Ends t u n.0 n.1))
