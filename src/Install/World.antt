-- ===== src/Install/World.antt =====
-- The state that the installer's C code runs in, and programs over it: a value and the new
-- state, an early `return`, or undefined behaviour and failed assertions as faults.
pub mod Keeps
use coreland_c_string.Base.{
  ℕ, ◌+◌, ◌==◌, Bool, true, false, Option, none, some, List, [], ◌∷◌, ◌||◌, Bytes, if◌then◌else◌,
}

-- What stops a C program where it stands.
pub data Fault : Type 0 where
  assertion null_pointer buffer_overflow bad_stream out_of_fuel : Fault

-- A message callback: the text and the user's data pointer.
abbrev pub Callback : Type 0 → Type 0
Callback S = Bytes → ℕ → S → S

-- The global variables of install-core.c over the state `S` of the operating system. Streams are
-- numbered in the order of their opening; `open_streams` are those not closed yet.
pub record World (S : Type 0) : Type 0 where
  pub os : S
  pub exec_suffix : Bytes
  pub dlib_suffix : Bytes
  pub failed : ℕ
  pub callback_warn : Option (Callback S)
  pub callback_info : Option (Callback S)
  pub callback_data : ℕ
  pub fake_root : Option Bytes
  pub next_stream : ℕ
  pub open_streams : List ℕ

-- How a call of a C function ends.
pub data Res (S A : Type 0) : Type 0 where
  done : A → World S → Res S A
  fault : Fault → Res S A

abbrev pub M : Type 0 → Type 0 → Type 0
M S A = World S → Res S A

-- How a statement inside a function of return type `R` ends.
pub data Exit (S R A : Type 0) : Type 0 where
  next : A → World S → Exit S R A
  leave : R → World S → Exit S R A
  stop : Fault → Exit S R A

abbrev pub Proc : Type 0 → Type 0 → Type 0 → Type 0
Proc S R A = World S → Exit S R A

module _ {S R : Type 0} where
  infixl 5 ◌>>=◌ ◌>>◌
  abbrev pub ◌>>=◌ : {A B : Type 0} → Proc S R A → (A → Proc S R B) → Proc S R B
  ◌>>=◌ p f w = elim (p w) [ next a w' ↦ f a w' | leave r w' ↦ leave r w' | stop x ↦ stop x ]

  abbrev pub ◌>>◌ : {A B : Type 0} → Proc S R A → Proc S R B → Proc S R B
  p >> q = p >>= λ _. q

  abbrev pub pure : {A : Type 0} → A → Proc S R A
  pure a w = next a w

  abbrev pub skip : Proc S R (Unit {0})
  skip w = next tt w

  -- `return r;` before the end of the body
  abbrev pub return_now : {A : Type 0} → R → Proc S R A
  return_now r w = leave r w

  abbrev pub raise : {A : Type 0} → Fault → Proc S R A
  raise x w = stop x

  abbrev pub assert_that : Bool → Proc S R (Unit {0})
  assert_that c w = if c then next tt w else stop assertion

  -- A pointer that an `assert` holds to be no null pointer.
  abbrev pub asserted : {A : Type 0} → Option A → Proc S R A
  asserted none w = stop assertion
  asserted (some a) w = next a w

  -- A pointer that is read, or passed to `%s`.
  abbrev pub deref : {A : Type 0} → Option A → Proc S R A
  deref none w = stop null_pointer
  deref (some a) w = next a w

  -- A branch on whether a pointer is null.
  abbrev pub if_null : {A B : Type 0} → Option A → Proc S R B → (A → Proc S R B) → Proc S R B
  if_null none p f = p
  if_null (some a) p f = f a

  -- A call of another function.
  abbrev pub call : {A : Type 0} → M S A → Proc S R A
  call m w = elim (m w) [ done a w' ↦ next a w' | fault x ↦ stop x ]

  -- A call of the operating system.
  abbrev pub sys : {A : Type 0} → (S → A × S) → Proc S R A
  sys f w = let (a, s) = f w.os in next a (record w { os = s })

  abbrev pub gets : {A : Type 0} → (World S → A) → Proc S R A
  gets f w = next (f w) w

  abbrev pub modify : (World S → World S) → Proc S R (Unit {0})
  modify f w = next tt (f w)

-- The body of a function, whose last value is returned.
abbrev pub proc : {S R : Type 0} → Proc S R R → M S R
proc p w = elim (p w) [ next r w' ↦ done r w' | leave r w' ↦ done r w' | stop x ↦ fault x ]

-- A body from which `goto` jumps to a label with a value: `none` if its end is reached.
abbrev pub attempt : {S R A : Type 0} → Proc S A (Unit {0}) → Proc S R (Option A)
attempt p w = elim (p w) [
  | next _ w' ↦ next none w'
  | leave a w' ↦ next (some a) w'
  | stop x ↦ stop x
]
