-- ===== src/Storage/Live.antt =====
-- Actions that end, where those of the host do and no redirect changes meanwhile
-- (src/core/persistence.ts, src/core/atomicFile.ts).
use jupyter_pair_ext.Base.{
  ◌≡◌, refl, Bool, true, false, some, if◌then◌else◌, nat_eq, string_eq, Result, ok, err, Map,
}
use jupyter_pair_ext.Base.Codes.{Text, text_eq}
use jupyter_pair_ext.Storage.{
  Failure, system, thrown, endless, Bytes, World, Action, after, ◌>>=◌, ◌>>◌, pure, throw, lift,
  recover, catch, finish, finally, when, Host,
}

abbrev pub has_ended : {A : Type 0} → Result Failure A → Bool
has_ended (ok a) = true
has_ended (err endless) = false
has_ended (err (system c)) = true
has_ended (err (thrown r)) = true

abbrev pub is_caught : Failure → Bool
is_caught endless = false
is_caught (system c) = true
is_caught (thrown r) = true

-- the action has ended and the redirects are as before
abbrev pub Ended : {D A : Type 0} → Map Text Text → Result Failure A × World D → Type 0
Ended rs x = (has_ended x.0 ≡ true) × (x.1.adapter.redirects ≡ rs)

pub record Live {D A : Type 0} (rs : Map Text Text) (m : Action D A) : Type 0 where
  pub run : (w : World D) → w.adapter.redirects ≡ rs → Ended rs (m w)

module _ {D : Type 0} {rs : Map Text Text} where
  Ended-after :
      {A B : Type 0} (x : Result Failure A × World D) (f : A → Action D B)
      → Ended rs x
      → ((a : A) → Live rs (f a))
      → Ended rs (after x f)
  Ended-after (ok a, w) f h k = (k a).run w h.1
  Ended-after (err endless, w) f h k = h
  Ended-after (err (system c), w) f h k = h
  Ended-after (err (thrown c), w) f h k = h

  Ended-recover :
      {A : Type 0} (x : Result Failure A × World D) (f : Failure → Action D A)
      → Ended rs x
      → ((e : Failure) → is_caught e ≡ true → Live rs (f e))
      → Ended rs (recover x f)
  Ended-recover (ok a, w) f h k = h
  Ended-recover (err endless, w) f h k = h
  Ended-recover (err (system c), w) f h k = (k (system c) refl).run w h.1
  Ended-recover (err (thrown c), w) f h k = (k (thrown c) refl).run w h.1

  pub Live-pure : {A : Type 0} (a : A) → Live {D = D} rs (pure a)
  Live-pure a = record { run = λ w e. (refl, e) }

  pub Live-throw :
      {A : Type 0} (e : Failure) → is_caught e ≡ true → Live {D = D} {A = A} rs (throw e)
  Live-throw endless h = cc (h)
  Live-throw (system c) h = record { run = λ w e. (refl, e) }
  Live-throw (thrown c) h = record { run = λ w e. (refl, e) }

  pub Live-lift :
      {A : Type 0} (r : Result Failure A) → has_ended r ≡ true → Live {D = D} rs (lift r)
  Live-lift r h = record { run = λ w e. (h, e) }

  Ended-finish :
      {A : Type 0} (x : Result Failure A × World D) (k : Action D (Unit {0}))
      → Ended rs x
      → Live rs k
      → Ended rs (finish x k)
  Ended-finish (ok a, w) k h i = Ended-after (k w) (λ y. pure a) (i.run w h.1) (λ y. Live-pure a)
  Ended-finish (err endless, w) k h i = h
  Ended-finish (err (system c), w) k h i =
      Ended-after (k w) (λ y. throw (system c)) (i.run w h.1) (λ y. Live-throw (system c) refl)
  Ended-finish (err (thrown c), w) k h i =
      Ended-after (k w) (λ y. throw (thrown c)) (i.run w h.1) (λ y. Live-throw (thrown c) refl)

  pub Live-bind :
      {A B : Type 0} (m : Action D A) (f : A → Action D B)
      → Live rs m
      → ((a : A) → Live rs (f a))
      → Live rs (m >>= f)
  Live-bind m f h k = record { run = λ w e. Ended-after (m w) f (h.run w e) k }

  pub Live-then :
      {B : Type 0} (m : Action D (Unit {0})) (k : Action D B)
      → Live rs m
      → Live rs k
      → Live rs (m >> k)
  Live-then m k h i = record { run = λ w e. Ended-after (m w) (λ x. k) (h.run w e) (λ x. i) }

  pub Live-catch :
      {A : Type 0} (m : Action D A) (f : Failure → Action D A)
      → Live rs m
      → ((e : Failure) → is_caught e ≡ true → Live rs (f e))
      → Live rs (catch m f)
  Live-catch m f h k = record { run = λ w e. Ended-recover (m w) f (h.run w e) k }

  pub Live-finally :
      {A : Type 0} (m : Action D A) (k : Action D (Unit {0}))
      → Live rs m
      → Live rs k
      → Live rs (finally m k)
  Live-finally m k h i = record { run = λ w e. Ended-finish (m w) k (h.run w e) i }

  pub Live-when : (b : Bool) (m : Action D (Unit {0})) → Live rs m → Live rs (when b m)
  Live-when true m h = record { run = h.run }
  Live-when false m h = record { run = λ w e. (refl, e) }

  pub Live-if :
      {A : Type 0} (b : Bool) (m k : Action D A)
      → Live rs m
      → Live rs k
      → Live rs (if b then m else k)
  Live-if true m k h i = h
  Live-if false m k h i = i

  -- a failure of which some are passed over
  pub Live-unless :
      {A : Type 0} (b : Bool) (a : A) (e : Failure)
      → is_caught e ≡ true
      → Live {D = D} rs (if b then pure a else throw e)
  Live-unless b a e h = Live-if b (pure a) (throw e) (Live-pure a) (Live-throw e h)

-- what the adapter asks of the host: its actions end, and no rename runs meanwhile
pub record LiveHost {D : Type 0} (rs : Map Text Text) (host : Host D) : Type 0 where
  pub random_uuid : Live rs host.random_uuid
  pub mkdir : (p : Text) → Live rs (host.mkdir p)
  pub create : (p : Text) → Live rs (host.create p)
  pub write_file : (p : Text) (b : Bytes) → Live rs (host.write_file p b)
  pub open_file : (p : Text) → Live rs (host.open_file p)
  pub sync_file : (p : Text) → Live rs (host.sync_file p)
  pub close_file : (p : Text) → Live rs (host.close_file p)
  pub move_file : (p q : Text) → Live rs (host.move_file p q)
  pub delete_file : (p : Text) → Live rs (host.delete_file p)
  pub lstat : (p : Text) → Live rs (host.lstat p)
  pub serialize : (p : Text) → Live rs (host.serialize p)
  pub on_working_copy_write : (p : Text) (b : Bytes) → Live rs (host.on_working_copy_write p b)
  pub write_working_copy :
      (write : Text → Bytes → Action D Bool)
      → host.write_working_copy ≡ some write
      → (p : Text) (b : Bytes) → Live rs (write p b)
