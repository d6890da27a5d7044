-- ===== src/Install/World/Keeps.antt =====
-- Invariants of programs over the installer's state, one rule for each way to build a program.
use coreland_c_string.Base.{Bool, true, false, Option, none, some, if◌then◌else◌}
use coreland_c_string.Install.World.{
  World, M, Res, done, fault, Fault, Exit, next, leave, stop, Proc, proc, call, gets, pure, skip,
  return_now, raise, assert_that, asserted, deref, attempt, if_null, ◌>>=◌,
}

module _ {S : Type 0} (I : World S → Type 0) where
  abbrev pub EndsIn : {R A : Type 0} → Exit S R A → Type 0
  EndsIn (next a w) = I w
  EndsIn (leave r w) = I w
  EndsIn (stop x) = Unit

  abbrev pub ReturnsIn : {A : Type 0} → Res S A → Type 0
  ReturnsIn (done a w) = I w
  ReturnsIn (fault x) = Unit

-- However the statement ends, short of a fault, the invariant holds.
pub record Keeps {S R A : Type 0} (I : World S → Type 0) (p : Proc S R A) : Type 0 where
  pub at : (w : World S) → I w → EndsIn I (p w)

-- However the call returns, the invariant holds.
pub record Preserves {S A : Type 0} (I : World S → Type 0) (m : M S A) : Type 0 where
  pub at : (w : World S) → I w → ReturnsIn I (m w)

module _ {S : Type 0} (I : World S → Type 0) where
  EndsIn-call :
      (R : Type 0) {A : Type 0} (r : Res S A)
      → ReturnsIn I r
      → EndsIn I {R = R} (elim r [ done a w' ↦ next a w' | fault x ↦ stop x ])
  EndsIn-call R (done a w) h = h
  EndsIn-call R (fault x) h = tt

  ReturnsIn-proc :
      {R : Type 0} (e : Exit S R R)
      → EndsIn I e
      → ReturnsIn I (elim e [ next r w ↦ done r w | leave r w ↦ done r w | stop x ↦ fault x ])
  ReturnsIn-proc (next a w) h = h
  ReturnsIn-proc (leave a w) h = h
  ReturnsIn-proc (stop x) h = tt

  EndsIn-attempt :
      (R : Type 0) {A : Type 0} (e : Exit S A (Unit {0}))
      → EndsIn I e
      → EndsIn I {R = R}
          (elim e [ next _ w' ↦ next none w' | leave a w' ↦ next (some a) w' | stop x ↦ stop x ])
  EndsIn-attempt R (next a w) h = h
  EndsIn-attempt R (leave a w) h = h
  EndsIn-attempt R (stop x) h = tt

module _ {S R : Type 0} {I : World S → Type 0} where
  pub Keeps-pure : {A : Type 0} (a : A) → Keeps {R = R} I (pure a)
  Keeps-pure a = record { at = λ w h. h }

  pub Keeps-skip : Keeps {R = R} I skip
  Keeps-skip = record { at = λ w h. h }

  pub Keeps-return : {A : Type 0} (r : R) → Keeps {A = A} I (return_now r)
  Keeps-return r = record { at = λ w h. h }

  pub Keeps-raise : {A : Type 0} (x : Fault) → Keeps {R = R} {A = A} I (raise x)
  Keeps-raise x = record { at = λ w h. tt }

  pub Keeps-assert : (c : Bool) → Keeps {R = R} I (assert_that c)
  Keeps-assert true = record { at = λ w h. h }
  Keeps-assert false = record { at = λ w h. tt }

  pub Keeps-asserted : {A : Type 0} (o : Option A) → Keeps {R = R} I (asserted o)
  Keeps-asserted none = record { at = λ w h. tt }
  Keeps-asserted (some a) = record { at = λ w h. h }

  pub Keeps-deref : {A : Type 0} (o : Option A) → Keeps {R = R} I (deref o)
  Keeps-deref none = record { at = λ w h. tt }
  Keeps-deref (some a) = record { at = λ w h. h }

  pub Keeps-gets : {A : Type 0} (f : World S → A) → Keeps {R = R} I (gets f)
  Keeps-gets f = record { at = λ w h. h }

  pub Keeps-if :
      {A : Type 0} (b : Bool) (p q : Proc S R A)
      → Keeps I p
      → Keeps I q
      → Keeps I (if b then p else q)
  Keeps-if true p q kp kq = kp
  Keeps-if false p q kp kq = kq

  pub Keeps-if_null :
      {A B : Type 0} (o : Option A) (p : Proc S R B) (f : A → Proc S R B)
      → Keeps I p
      → ((a : A) → Keeps I (f a))
      → Keeps I (if_null o p f)
  Keeps-if_null none p f kp kf = kp
  Keeps-if_null (some a) p f kp kf = kf a

  pub EndsIn-bind :
      {A B : Type 0} (e : Exit S R A) (f : A → Proc S R B)
      → EndsIn I e
      → ((a : A) → Keeps I (f a))
      → EndsIn I (elim e [ next a w ↦ f a w | leave r w ↦ leave r w | stop x ↦ stop x ])
  EndsIn-bind (next a w) f h k = (k a).at w h
  EndsIn-bind (leave r w) f h k = h
  EndsIn-bind (stop x) f h k = tt

  pub Keeps-bind :
      {A B : Type 0} (p : Proc S R A) (f : A → Proc S R B)
      → Keeps I p
      → ((a : A) → Keeps I (f a))
      → Keeps I (p >>= f)
  Keeps-bind p f kp kf = record { at = λ w h. EndsIn-bind (p w) f (kp.at w h) kf }

  pub Keeps-call : {A : Type 0} (m : M S A) → Preserves I m → Keeps {R = R} I (call m)
  Keeps-call m k = record { at = λ w h. EndsIn-call I R (m w) (k.at w h) }

module _ {S : Type 0} {I : World S → Type 0} where
  pub Preserves-proc : {R : Type 0} (p : Proc S R R) → Keeps I p → Preserves I (proc p)
  Preserves-proc p k = record { at = λ w h. ReturnsIn-proc I (p w) (k.at w h) }

  pub Keeps-attempt :
      {R A : Type 0} (p : Proc S A (Unit {0})) → Keeps I p → Keeps {R = R} I (attempt p)
  Keeps-attempt {R} p k = record { at = λ w h. EndsIn-attempt I R (p w) (k.at w h) }

pub ruleset keeps_rules = (
  Keeps-pure, Keeps-skip, Keeps-return, Keeps-raise, Keeps-assert, Keeps-asserted, Keeps-deref,
  Keeps-gets, Keeps-if, Keeps-if_null, Keeps-bind, Keeps-call, Keeps-attempt, Preserves-proc,
)
