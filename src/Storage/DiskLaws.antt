-- ===== src/Storage/DiskLaws.antt =====
-- What the proofs on atomic writes ask of a disk, and names beside a target.
--
-- `content` tells what a file of the disk holds. The laws are those of the file system, with no
-- other program at the same files: `rename` moves a file or changes nothing, the other calls
-- change at most the file that they are given; `randomUUID` gives 36 characters.
use jupyter_pair_ext.Base.{
  ◌+◌, ◌≡◌, ap, ◌≢◌, inl, inr, false, Option, none, some, ◌++◌, arith, Bool-cases, nat_eq,
  string_eq, Result, ok, err, length, length-append,
}
use jupyter_pair_ext.Base.Codes.{Text, text_eqb, text_eq, text_eqb_iff}
use jupyter_pair_ext.Base.Js.{codes}
use jupyter_pair_ext.Storage.{Failure, Bytes, World, Action, Host}
use jupyter_pair_ext.Storage.Ends.{Ends}

module _ {D : Type 0} (content : D → Text → Option Bytes) where
  abbrev pub at : World D → Text → Option Bytes
  at w p = content w.disk p

  abbrev pub Same : World D → World D → Type 0
  Same w v = (q : Text) → at v q ≡ at w q

  abbrev pub OnlyAt : Text → World D → World D → Type 0
  OnlyAt p w v = (q : Text) → text_eqb q p ≡ false → at v q ≡ at w q

  -- the file stands at its new path and no more at the old one
  abbrev pub Moved : Text → Text → World D → World D → Type 0
  Moved from to w v =
      (at v to ≡ at w from)
      × ((q : Text) → text_eqb q from ≡ false → text_eqb q to ≡ false → at v q ≡ at w q)
      × (text_eqb from to ≡ false → at v from ≡ none)

  pub record Laws (host : Host D) : Type 0 where
    pub uuid_length :
        (w : World D)
        → Ends (λ u v. (length u ≡ 36) × Same w v) (λ v. Same w v) (host.random_uuid w)
    pub mkdir_same : (p : Text) (w : World D) → Same w (host.mkdir p w).1
    pub create_only : (p : Text) (w : World D) → OnlyAt p w (host.create p w).1
    pub write_only : (p : Text) (b : Bytes) (w : World D) → OnlyAt p w (host.write_file p b w).1
    pub write_content :
        (p : Text) (b : Bytes) (w : World D)
        → Ends (λ x v. at v p ≡ some b) (λ v. Unit) (host.write_file p b w)
    pub open_same : (p : Text) (w : World D) → Same w (host.open_file p w).1
    pub sync_same : (p : Text) (w : World D) → Same w (host.sync_file p w).1
    pub close_same : (p : Text) (w : World D) → Same w (host.close_file p w).1
    pub lstat_same : (p : Text) (w : World D) → Same w (host.lstat p w).1
    pub delete_only : (p : Text) (w : World D) → OnlyAt p w (host.delete_file p w).1
    pub move_moves :
        (from to : Text) (w : World D)
        → Ends (λ x v. Moved from to w v) (λ v. Same w v) (host.move_file from to w)

-- an action that keeps what `I` says, whether it succeeds or not
abbrev Keeps : {D A : Type 0} → (World D → Type 0) → Action D A → Type 0
Keeps I m = (w : _) → I w → Ends (λ a v. I v) I (m w)

pub Keeps-result :
    {D A : Type 0} (I : World D → Type 0) (x : Result Failure A × World D)
    → I x.1
    → Ends (λ a v. I v) I x
Keeps-result I (ok a, w) h = h
Keeps-result I (err e, w) h = h

pub sibling-length :
    (target u s : Text)
    → length u ≡ 36
    → length (target ++ codes ".pair-notebook-" ++ u ++ s) ≡ length target + (51 + length s)
sibling-length target u s h = omega (
  arith,
  length-append (target ++ codes ".pair-notebook-" ++ u) s,
  length-append (target ++ codes ".pair-notebook-") u,
  length-append target (codes ".pair-notebook-"),
  h,
)

pub differ : (a b : Text) → length a ≢ length b → text_eqb a b ≡ false
differ a b n = elim (Bool-cases (text_eqb a b)) [
  | inl e ↦ elim (n (ap length ((text_eqb_iff a b).0 e))) [ ]
  | inr f ↦ f
]
