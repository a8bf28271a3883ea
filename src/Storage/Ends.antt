-- ===== src/Storage/Ends.antt =====
-- What is true of the world when an action ends, by whether it succeeds (`P`) or fails (`E`).
use jupyter_pair_ext.Base.{
  ◌≡◌, refl, Bool, true, false, if◌then◌else◌, nat_eq, string_eq, Result, ok, err,
}
use jupyter_pair_ext.Storage.{
  Failure, system, thrown, endless, World, Action, after, pure, throw, recover, finish, when,
}

module _ {D : Type 0} where
  abbrev pub Ends :
      {A : Type 0}
      → (A → World D → Type 0)
      → (World D → Type 0)
      → Result Failure A × World D
      → Type 0
  Ends P E (ok a, w) = P a w
  Ends P E (err e, w) = E w

  pub Ends-after :
      {A B : Type 0} (P : A → World D → Type 0) (Q : B → World D → Type 0) (E : World D → Type 0)
      (x : Result Failure A × World D) (f : A → Action D B)
      → Ends P E x
      → ((a : A) (w : World D) → P a w → Ends Q E (f a w))
      → Ends Q E (after x f)
  Ends-after P Q E (ok a, w) f h k = k a w h
  Ends-after P Q E (err e, w) f h k = h

  pub Ends-recover :
      {A : Type 0} (P : A → World D → Type 0) (E F : World D → Type 0)
      (x : Result Failure A × World D) (f : Failure → Action D A)
      → Ends P E x
      → ((w : World D) → E w → F w)
      → ((e : Failure) (w : World D) → E w → Ends P F (f e w))
      → Ends P F (recover x f)
  Ends-recover P E F (ok a, w) f h i k = h
  Ends-recover P E F (err endless, w) f h i k = i w h
  Ends-recover P E F (err (system c), w) f h i k = k (system c) w h
  Ends-recover P E F (err (thrown c), w) f h i k = k (thrown c) w h

  pub Ends-finish :
      {A : Type 0} (P : A → World D → Type 0) (E : World D → Type 0)
      (x : Result Failure A × World D) (k : Action D (Unit {0}))
      → Ends P E x
      → ((a : A) (w : World D) → P a w → Ends (λ y. P a) E (k w))
      → ((w : World D) → E w → Ends (λ y. E) E (k w))
      → Ends P E (finish x k)
  Ends-finish P E (ok a, w) k h i j =
      Ends-after (λ y. P a) P E (k w) (λ y. pure a) (i a w h) (λ y v m. m)
  Ends-finish P E (err endless, w) k h i j = h
  Ends-finish P E (err (system c), w) k h i j =
      Ends-after (λ y. E) P E (k w) (λ y. throw (system c)) (j w h) (λ y v m. m)
  Ends-finish P E (err (thrown c), w) k h i j =
      Ends-after (λ y. E) P E (k w) (λ y. throw (thrown c)) (j w h) (λ y v m. m)

  pub Ends-weaken :
      {A : Type 0} (P Q : A → World D → Type 0) (E F : World D → Type 0)
      (x : Result Failure A × World D)
      → ((a : A) (w : World D) → P a w → Q a w)
      → ((w : World D) → E w → F w)
      → Ends P E x
      → Ends Q F x
  Ends-weaken P Q E F (ok a, w) i j h = i a w h
  Ends-weaken P Q E F (err e, w) i j h = j w h

  pub Ends-if :
      {A : Type 0} (P : A → World D → Type 0) (E : World D → Type 0) (b : Bool) (m k : Action D A)
      (w : World D)
      → Ends P E (m w)
      → Ends P E (k w)
      → Ends P E ((if b then m else k) w)
  Ends-if P E true m k w h i = h
  Ends-if P E false m k w h i = i

  pub Ends-when :
      (I E : World D → Type 0) (b : Bool) (m : Action D (Unit {0})) (w : World D)
      → I w
      → (b ≡ true → Ends (λ x. I) E (m w))
      → Ends (λ x. I) E (when b m w)
  Ends-when I E true m w h i = i refl
  Ends-when I E false m w h i = h
