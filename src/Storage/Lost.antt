-- ===== src/Storage/Lost.antt =====
-- A write that fails while its path is being renamed (src/core/persistence.ts: requeue, rename).
use jupyter_pair_ext.Base.{
  ℕ, suc, ◌≡◌, refl, sym, ap, ◌∙◌, true, false, none, some, List, [], ◌∷◌, arith, nat_eq, string_eq,
  ok, any, get, remove,
}
use jupyter_pair_ext.Base.Codes.{Text, text_eq, text_eqb_iff}
use jupyter_pair_ext.Storage.{Adapter, World, after, Host}
use jupyter_pair_ext.Storage.State.{
  add, is_same_or_child, retarget, redirected, follow, or_endless, resolve_current_path, is_removed,
  restore, requeue, leads_to, end_redirect,
}
use jupyter_pair_ext.Storage.Operations.{flush_one, flush_current, current, removed_now}
use jupyter_pair_ext.Storage.Requeue.{
  is_in, is_in-add, restore-keep, requeue-ok, ok-injective, armed, with_pending,
}

self : (p : Text) → is_same_or_child p p ≡ true
self p = ground (arith, text_eqb_iff p p)

-- one redirect leads from its source to its target, and no further
follow_one :
    (n : ℕ) (p q : Text)
    → is_same_or_child q p ≡ false
    → follow (suc (suc n)) ((p, q) ∷ []) [] p ≡ some q
unfolding follow redirected retarget
follow_one n p q apart =
    let same = text_eqb_iff p p in ground (arith, same, apart, text_eqb_iff q p)

resolve_one :
    (n : ℕ) (p q : Text) (a : Adapter)
    → a.redirects ≡ (p, q) ∷ []
    → is_same_or_child q p ≡ false
    → resolve_current_path (suc (suc n)) a p ≡ ok q
unfolding resolve_current_path
resolve_one n p q a e apart =
    ap (λ rs. or_endless (follow (suc (suc n)) rs [] p)) e ∙ ap or_endless (follow_one n p q apart)

-- without redirects a path is its own
resolve_none :
    (n : ℕ) (p : Text) (a : Adapter) → a.redirects ≡ [] → resolve_current_path (suc n) a p ≡ ok p
unfolding resolve_current_path follow redirected
resolve_none n p a e = ap (λ rs. or_endless (follow (suc n) rs [] p)) e

self-any : (p : Text) (xs : List Text) → is_in p xs ≡ true → any (is_same_or_child p) xs ≡ true
self-any p [] m = cc m
self-any p (x ∷ xs) m = ground (arith, m, self-any p xs)

is_removed_self : (p : Text) (a : Adapter) → is_in p a.removed ≡ true → is_removed a p ≡ true
unfolding is_removed
is_removed_self p a m = self-any p a.removed m

get_one : (p q : Text) → leads_to q (get p ((p, q) ∷ [])) ≡ true
unfolding get
get_one p q = ground (arith, text_eqb_iff p p, text_eqb_iff q q)

remove_one : (p q : Text) → remove p ((p, q) ∷ []) ≡ []
unfolding remove
remove_one p q = ground (arith, text_eqb_iff p p)

end_one :
    (p q : Text) (a : Adapter)
    → a.redirects ≡ (p, q) ∷ []
    → end_redirect p q a ≡ record a { redirects = [] }
unfolding end_redirect
end_one p q a e =
    let leads : leads_to q (get p a.redirects) ≡ true =
      ap (λ rs. leads_to q (get p rs)) e ∙ get_one p q in
    let gone : remove p a.redirects ≡ [] = ap (remove p) e ∙ remove_one p q in
    simp (leads, gone) refl

module _ {D : Type 0} (host : Host D) (debounce : ℕ) (working_root : Text) where
  skip_removed :
      (n : ℕ) (p : Text) (w : World D)
      → w.adapter.redirects ≡ []
      → is_in p w.adapter.removed ≡ true
      → flush_one host (suc n) debounce working_root p w ≡ (ok none, w)
  unfolding flush_one flush_current current removed_now
  skip_removed n p w e m =
      let here = resolve_none n p w.adapter e in
      let gone = is_removed_self p w.adapter m in
      ap (λ r. after (r, w) (flush_current host (suc n) debounce working_root p)) here
      ∙ simp gone refl

  -- A write of `p` fails while `p` is being renamed to `q`, the only redirect: `requeue` makes `p`
  -- pending again, not `q`. When the rename then ends, the next flush takes `p` for removed: it
  -- succeeds without a write, and `q` is not pending unless it was before.
  pub requeue-lost :
      (n : ℕ) (p q : Text) (a b : Adapter) (w : World D)
      → a.active ≡ true
      → a.redirects ≡ (p, q) ∷ []
      → is_in p a.removed ≡ true
      → is_removed a q ≡ false
      → is_same_or_child q p ≡ false
      → requeue (suc (suc n)) debounce (p ∷ []) a ≡ ok b
      → w.adapter ≡ end_redirect p q b
      → (is_in p w.adapter.pending ≡ true)
        × (is_in q w.adapter.pending ≡ is_in q a.pending)
        × (flush_one host (suc (suc n)) debounce working_root p w ≡ (ok none, w))
  unfolding restore
  requeue-lost n p q a b w active e m kept apart h end =
      let once = restore-keep (suc (suc n)) p [] false a q (resolve_one n p q a e apart) kept in
      let c = with_pending p a in
      let b_is : armed debounce true c ≡ b =
        ok-injective (sym (requeue-ok (suc (suc n)) debounce (p ∷ []) a c true active once) ∙ h) in
      let last : w.adapter ≡ record (armed debounce true c) { redirects = [] } =
        end ∙ ap (end_redirect p q) (sym b_is) ∙ end_one p q (armed debounce true c) e in
      let pending : w.adapter.pending ≡ add p a.pending = ap (λ (x : Adapter). x.pending) last in
      (
        ap (is_in p) pending ∙ ground (arith, is_in-add p p a.pending, text_eqb_iff p p),
        ap (is_in q) pending ∙ ground (arith, is_in-add q p a.pending, apart),
        skip_removed (suc n) p w (ap (λ (x : Adapter). x.redirects) last)
            (ap (λ (x : Adapter). is_in p x.removed) last ∙ m),
      )
