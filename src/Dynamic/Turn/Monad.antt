-- ===== src/Dynamic/Turn/Monad.antt =====
-- The monad of a turn: state, errors that a caller can catch, and panics.
use opencaw.Core.{CawError, CawResult, ok, err}
use opencaw.Dynamic.{Orchestrator}
use opencaw.Dynamic.Turn.Models.{Turn}

-- Also after an error the state is what it was changed to.
pub data TurnResult (F : Type 0) (A : Type 0) : Type 0 where
  panics : TurnResult F A
  done : CawResult A → Turn F → TurnResult F A

abbrev pub Action : Type 0 → Type 0 → Type 0
Action F A = Turn F → TurnResult F A

module _ {F : Type 0} where
  abbrev pub pure : {A : Type 0} → A → Action F A
  pure a t = done (ok a) t

  abbrev pub fail : {A : Type 0} → CawError → Action F A
  fail e t = done (err e) t

  abbrev pub from_result : {A : Type 0} → CawResult A → Action F A
  from_result r t = done r t

  abbrev pub gets : {A : Type 0} → (Turn F → A) → Action F A
  gets f t = done (ok (f t)) t

  abbrev pub modify : (Turn F → Turn F) → Action F (Unit {0})
  modify f t = done (ok tt) (f t)

  -- A step on the orchestrator.
  abbrev pub on_self : (Orchestrator F → Orchestrator F) → Action F (Unit {0})
  on_self f t = done (ok tt) (record t { self = f t.self })

  -- A match on the result in place of `?`.
  abbrev pub caught : {A : Type 0} → TurnResult F A → TurnResult F (CawResult A)
  caught panics = panics
  caught (done r t) = done (ok r) t

  abbrev pub try_catch : {A : Type 0} → Action F A → Action F (CawResult A)
  try_catch m t = caught (m t)

abbrev pub then_do :
    {F : Type 0} {A : Type 0} {B : Type 0} → TurnResult F A → (A → Action F B) → TurnResult F B
then_do panics f = panics
then_do (done (ok a) t) f = f a t
then_do (done (err e) t) f = done (err e) t

infixl 5 ◌>>=◌ ◌>>◌
abbrev pub ◌>>=◌ :
    {F : Type 0} {A : Type 0} {B : Type 0} → Action F A → (A → Action F B) → Action F B
◌>>=◌ m f t = then_do (m t) f

abbrev pub ◌>>◌ : {F : Type 0} {B : Type 0} → Action F (Unit {0}) → Action F B → Action F B
m >> k = m >>= λ _. k

-- How an action ends: without a panic, with a result and a state for which the condition holds.
abbrev pub Ends :
    {F : Type 0} {A : Type 0} → (CawResult A → Turn F → Type 0) → TurnResult F A → Type 0
Ends P panics = ⊥
Ends P (done r t) = P r t

-- A condition on the state is kept, also by an error.
abbrev pub Keeps : {F : Type 0} {A : Type 0} → (Turn F → Type 0) → Action F A → Type 0
Keeps {F} Inv m = (t : Turn F) → Inv t → Ends (λ r. Inv) (m t)

module _ {F : Type 0} {A : Type 0} {B : Type 0} (Inv : Turn F → Type 0) where
  pub then_do-Ends :
      (o : TurnResult F A) (f : A → Action F B)
      → Ends (λ r. Inv) o
      → ((a : A) → Keeps Inv (f a))
      → Ends (λ r. Inv) (then_do o f)
  then_do-Ends panics f h k = h
  then_do-Ends (done (ok a) t) f h k = k a t h
  then_do-Ends (done (err e) t) f h k = h

  pub bind-Keeps :
      (m : Action F A) (f : A → Action F B)
      → Keeps Inv m
      → ((a : A) → Keeps Inv (f a))
      → Keeps Inv (m >>= f)
  bind-Keeps m f h k t i = then_do-Ends (m t) f (h t i) k

module _ {F : Type 0} {A : Type 0} (Inv : Turn F → Type 0) where
  caught-Ends : (o : TurnResult F A) → Ends (λ r. Inv) o → Ends (λ r. Inv) (caught o)
  caught-Ends panics h = h
  caught-Ends (done r t) h = h

  pub try-Keeps : (m : Action F A) → Keeps Inv m → Keeps Inv (try_catch m)
  try-Keeps m h t i = caught-Ends (m t) (h t i)

-- The rule of sequence: what holds after the first action is enough for the second, and an error of
-- the first is one of both.
pub bind-Ends :
    {F : Type 0} {A : Type 0} {B : Type 0}
    → (P : CawResult A → Turn F → Type 0) (Q : CawResult B → Turn F → Type 0) (o : TurnResult F A)
      (f : A → Action F B)
    → Ends P o
    → ((a : A) (t : Turn F) → P (ok a) t → Ends Q (f a t))
    → ((e : CawError) (t : Turn F) → P (err e) t → Q (err e) t)
    → Ends Q (then_do o f)
bind-Ends P Q panics f h k l = h
bind-Ends P Q (done (ok a) t) f h k l = k a t h
bind-Ends P Q (done (err e) t) f h k l = l e t h

pub try-Ends :
    {F : Type 0} {A : Type 0}
    → (P : CawResult A → Turn F → Type 0) (Q : CawResult (CawResult A) → Turn F → Type 0)
      (o : TurnResult F A)
    → Ends P o
    → ((r : CawResult A) (t : Turn F) → P r t → Q (ok r) t)
    → Ends Q (caught o)
try-Ends P Q panics h k = h
try-Ends P Q (done r t) h k = k r t h
