-- ===== src/Effect/Every.antt =====
-- A condition on every call that a program can make, whatever the answers.
use dbsc_python.Base.{◌≡◌, refl, Bool, true, false, Option, none, some, if◌then◌else◌}
use dbsc_python.Exceptions.{Exception, Result, ok, raise}
use dbsc_python.Effect.{Call, Answer, Program, done, call, lift, or_again, try, ◌>>=◌}

abbrev pub Every : {A : Type 0} → (Call → Type 0) → Program A → Type 0
Every P (done r) = Unit
Every P (call c k) = P c × ((a : Answer c) → Every P (k a))

module _ (P : Call → Type 0) where
  pub Every-bind :
      {A B : Type 0} (m : Program A) (f : A → Program B)
      → Every P m
      → ((a : A) → Every P (f a))
      → Every P (m >>= f)
  Every-bind (done (ok a)) f h k = k a
  Every-bind (done (raise e)) f h k = tt
  Every-bind (call c n) f h k = (h.0, λ a. Every-bind (n a) f (h.1 a) k)

  pub Every-try :
      {A : Type 0} (m : Program A) (handler : Exception → Program A)
      → Every P m
      → ((e : Exception) → Every P (handler e))
      → Every P (try m handler)
  Every-try (done (ok a)) handler h k = tt
  Every-try (done (raise e)) handler h k = k e
  Every-try (call c n) handler h k = (h.0, λ a. Every-try (n a) handler (h.1 a) k)

  pub Every-lift :
      {A B : Type 0} (r : Result A) (f : A → Program B)
      → ((a : A) → r ≡ ok a → Every P (f a))
      → Every P (lift r >>= f)
  Every-lift (ok a) f k = k a refl
  Every-lift (raise e) f k = tt

  pub Every-if :
      {A : Type 0} (b : Bool) (m n : Program A)
      → Every P m
      → Every P n
      → Every P (if b then m else n)
  Every-if true m n hm hn = hm
  Every-if false m n hm hn = hn

  pub Every-or_again :
      {A : Type 0} (o : Option A) (next : Program A) → Every P next → Every P (or_again o next)
  Every-or_again (some a) next h = tt
  Every-or_again none next h = h
