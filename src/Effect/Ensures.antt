-- ===== src/Effect/Ensures.antt =====
-- What holds of every run of a program, whatever its calls answer: other requests may change the
-- store between any two calls.
use dbsc_python.Base.{◌≡◌, refl, Bool, true, false, Option, none, some, List, ◌∷◌, if◌then◌else◌}
use dbsc_python.Exceptions.{Exception, Result, ok, raise}
use dbsc_python.Effect.{Call, Answer, Program, done, call, lift, or_again, ◌>>=◌}

-- A call with its answer.
abbrev pub Event : Type 0
Event = (c : Call) × Answer c

-- Most recent first.
abbrev pub History : Type 0
History = List Event

abbrev pub Ensures : {A : Type 0} → (Result A → History → Type 0) → Program A → History → Type 0
Ensures Q (done r) h = Q r h
Ensures Q (call c k) h = (a : Answer c) → Ensures Q (k a) ((c, a) ∷ h)

abbrev pub Continue :
    {A B : Type 0} → (Result B → History → Type 0) → (A → Program B) → Result A → History → Type 0
Continue Q f (ok a) h = Ensures Q (f a) h
Continue Q f (raise e) h = Q (raise e) h

pub Ensures-bind :
    {A B : Type 0} (R : Result A → History → Type 0) (Q : Result B → History → Type 0)
    (m : Program A) (f : A → Program B) (h : History)
    → Ensures R m h
    → ((r : Result A) (h' : History) → R r h' → Continue Q f r h')
    → Ensures Q (m >>= f) h
Ensures-bind R Q (done (ok a)) f h e k = k (ok a) h e
Ensures-bind R Q (done (raise x)) f h e k = k (raise x) h e
Ensures-bind R Q (call c n) f h e k = λ a. Ensures-bind R Q (n a) f ((c, a) ∷ h) (e a) k

-- A condition on the value alone; a run that raises meets it.
abbrev pub OnOk : {A : Type 0} → (A → History → Type 0) → Result A → History → Type 0
OnOk P (ok a) h = P a h
OnOk P (raise e) h = Unit

module _ {A : Type 0} (Q : Result A → History → Type 0) where
  pub Ensures-if :
      (b : Bool) (m n : Program A) (h : History)
      → (b ≡ true → Ensures Q m h)
      → (b ≡ false → Ensures Q n h)
      → Ensures Q (if b then m else n) h
  Ensures-if true m n h yes_case no_case = yes_case refl
  Ensures-if false m n h yes_case no_case = no_case refl

  -- What follows a step that may raise: a raised exception is the result.
  pub Ensures-lift :
      {B : Type 0} (r : Result B) (f : B → Program A) (h : History)
      → ((b : B) → r ≡ ok b → Ensures Q (f b) h)
      → ((e : Exception) → r ≡ raise e → Q (raise e) h)
      → Ensures Q (lift r >>= f) h
  Ensures-lift (ok b) f h good bad = good b refl
  Ensures-lift (raise e) f h good bad = bad e refl

  pub Ensures-or_again :
      (o : Option A) (next : Program A) (h : History)
      → ((a : A) → o ≡ some a → Q (ok a) h)
      → (o ≡ none → Ensures Q next h)
      → Ensures Q (or_again o next) h
  Ensures-or_again (some a) next h found again = found a refl
  Ensures-or_again none next h found again = again refl

-- A weaker condition.
pub Ensures-weaken :
    {A : Type 0} (P Q : Result A → History → Type 0) (m : Program A) (h : History)
    → Ensures P m h
    → ((r : Result A) (h' : History) → P r h' → Q r h')
    → Ensures Q m h
Ensures-weaken P Q (done r) h e k = k r h e
Ensures-weaken P Q (call c n) h e k = λ a. Ensures-weaken P Q (n a) ((c, a) ∷ h) (e a) k

-- The rule for a bind when only values matter.
pub Ensures-then :
    {A B : Type 0} (P : A → History → Type 0) (Q : B → History → Type 0) (m : Program A)
    (f : A → Program B) (h : History)
    → Ensures (OnOk P) m h
    → ((a : A) (h' : History) → P a h' → Ensures (OnOk Q) (f a) h')
    → Ensures (OnOk Q) (m >>= f) h
Ensures-then P Q (done (ok a)) f h e k = k a h e
Ensures-then P Q (done (raise x)) f h e k = tt
Ensures-then P Q (call c n) f h e k = λ a. Ensures-then P Q (n a) f ((c, a) ∷ h) (e a) k

pub OnOk-intro :
    {A : Type 0} (P : A → History → Type 0) (r : Result A) (h : History)
    → ((a : A) → r ≡ ok a → P a h)
    → OnOk P r h
OnOk-intro P (ok a) h k = k a refl
OnOk-intro P (raise e) h k = tt

-- A condition on the exception alone; a run that returns meets it.
abbrev pub OnRaise : {A : Type 0} → (Exception → History → Type 0) → Result A → History → Type 0
OnRaise P (ok a) h = Unit
OnRaise P (raise e) h = P e h

module _ (P : Exception → History → Type 0) where
  pub OnRaise-intro :
      {A : Type 0} (r : Result A) (h : History)
      → ((e : Exception) → r ≡ raise e → P e h)
      → OnRaise P r h
  OnRaise-intro (ok a) h k = tt
  OnRaise-intro (raise e) h k = k e refl

  pub Raises-then :
      {A B : Type 0} (m : Program A) (f : A → Program B) (h : History)
      → Ensures (OnRaise P) m h
      → ((a : A) (h' : History) → Ensures (OnRaise P) (f a) h')
      → Ensures (OnRaise P) (m >>= f) h
  Raises-then (done (ok a)) f h e k = k a h
  Raises-then (done (raise x)) f h e k = e
  Raises-then (call c n) f h e k = λ a. Raises-then (n a) f ((c, a) ∷ h) (e a) k

-- A condition on the history that both kinds of result keep, and the rule for a bind.
pub Keeps-then :
    {A B : Type 0} (I : History → Type 0) (Q : Result B → History → Type 0) (m : Program A)
    (f : A → Program B) (h : History)
    → Ensures (λ _. I) m h
    → ((a : A) (h' : History) → I h' → Ensures Q (f a) h')
    → ((e : Exception) (h' : History) → I h' → Q (raise e) h')
    → Ensures Q (m >>= f) h
Keeps-then I Q (done (ok a)) f h i k l = k a h i
Keeps-then I Q (done (raise x)) f h i k l = l x h i
Keeps-then I Q (call c n) f h i k l = λ a. Keeps-then I Q (n a) f ((c, a) ∷ h) (i a) k l
