-- ===== src/Install/Translate/Statements.antt =====
-- The statements of the name translation callbacks of install-core.c, under POSIX with a fake root: how
-- they go on, and that the fake root stays.
use coreland_c_string.Base.{
  ℕ, ◌≡◌, refl, true, false, Option, none, some, Bytes, String, take, lit, arith, Bool-cases, inl,
  inr, is_negative, snprintf_value, if◌then◌else◌,
}
use coreland_c_string.Install.Header.{Item}
use coreland_c_string.Install.World.{
  World, Res, done, fault, Exit, next, leave, stop, Proc, call, sys, skip, asserted, deref,
  return_now, ◌>>◌,
}
use coreland_c_string.Install.World.Keeps.{Keeps, Preserves, ReturnsIn, keeps_rules}
use coreland_c_string.Install.Platform.{Platform}
use coreland_c_string.Install.Os.{Os}
use coreland_c_string.Install.Os.Stdio.{fopen, fread, ferror, fclose}
use coreland_c_string.Install.Posix.{install_platform_posix, iposix_error_message_current}
use coreland_c_string.Install.Status.{install_status_assign}
use coreland_c_string.Install.Strings.{str_ends}
use coreland_c_string.Install.Operators.{is_ok}
use coreland_c_string.Install.Translate.{
  Translated, libname, cleaned, required, format_path, real_name, accept,
}

module _ {S : Type 0} (os : Os S) (root : Bytes) where
  abbrev pub HasRoot : World S → Type 0
  HasRoot w = w.fake_root ≡ some root

  abbrev pub platform : Platform S
  platform = install_platform_posix os

  -- A statement goes on with a value as described, or returns a status that is not OK.
  abbrev pub Goes : {A : Type 0} → (A → Type 0) → Exit S Translated A → Type 0
  Goes R (next a w) = R a × HasRoot w
  Goes R (leave t w) = is_ok t.0 ≡ false
  Goes R (stop x) = Unit

  pub Goes-bind :
      {A B : Type 0} (R : A → Type 0) (Q : B → Type 0) (e : Exit S Translated A)
      (f : A → Proc S Translated B)
      → Goes R e
      → ((a : A) (w : World S) → R a → HasRoot w → Goes Q (f a w))
      → Goes Q (elim e [ next a w ↦ f a w | leave r w ↦ leave r w | stop x ↦ stop x ])
  Goes-bind R Q (next a w) f h g = g a w h.0 h.1
  Goes-bind R Q (leave t w) f h g = h
  Goes-bind R Q (stop x) f h g = tt

  Goes-map : {A : Type 0} (R : A → Type 0) (e : Exit S Translated A) → Goes R e → Goes (λ _. Unit) e
  Goes-map R (next a w) h = (tt, h.1)
  Goes-map R (leave t w) h = h
  Goes-map R (stop x) h = tt

  Keeps-sys : {R A : Type 0} (f : S → A × S) → Keeps {R = R} HasRoot (sys f)
  Keeps-sys f = record { at = λ w h. h }

  Keeps-fopen : {R : Type 0} (path mode : Bytes) → Keeps {R = R} HasRoot (fopen os path mode)
  Keeps-fopen path mode = record { at = λ w h. ground arith }

  Keeps-fread : {R : Type 0} (f size : ℕ) → Keeps {R = R} HasRoot (fread os f size)
  Keeps-fread f size = record { at = λ w h. ground arith }

  Keeps-ferror : {R : Type 0} (f : ℕ) → Keeps {R = R} HasRoot (ferror os f)
  Keeps-ferror f = record { at = λ w h. ground arith }

  Keeps-fclose : {R : Type 0} (f : ℕ) → Keeps {R = R} HasRoot (fclose os f)
  Keeps-fclose f = record { at = λ w h. ground arith }

  ruleset calls_rules =
      (keeps_rules, Keeps-sys, Keeps-fopen, Keeps-fread, Keeps-ferror, Keeps-fclose)

  Keeps-cleaned : (o : Option Bytes) → Keeps HasRoot (cleaned os o)
  Keeps-cleaned none = search keeps_rules
  Keeps-cleaned (some name) = search keeps_rules

  pub libname-Preserves : (name : Option Bytes) → Preserves HasRoot (libname os name)
  unfolding libname
  libname-Preserves name = search (calls_rules, Keeps-cleaned) depth 30

  pub libname-Goes :
      (r : Res S (Option Bytes))
      → ReturnsIn HasRoot r
      → Goes (λ _. Unit) (elim r [ done a w ↦ next a w | fault x ↦ stop x ])
  libname-Goes (done a w) h = (tt, h)
  libname-Goes (fault x) h = tt

  pub required-Goes :
      {A : Type 0} (o : Option A) (item : Item) (text : String) (w : World S)
      → HasRoot w
      → Goes (λ a. o ≡ some a) (required os platform o item text w)
  unfolding install_status_assign iposix_error_message_current
  required-Goes none item text w h = refl
  required-Goes (some a) item text w h = (refl, h)

  pub format_path-Goes :
      (item : Item) (path : Bytes) (text : String) (w : World S)
      → HasRoot w
      → Goes (λ p. p ≡ take 1023 path) (format_path os platform item path text w)
  unfolding install_status_assign iposix_error_message_current
  format_path-Goes item path text w h = elim (Bool-cases (is_negative (snprintf_value path))) [
    | inl long ↦ rw long refl
    | inr fits ↦ rw fits (refl, h)
  ]

  pub real_name-Goes :
      (item : Item) (name : Bytes) (w : World S)
      → HasRoot w
      → Goes (λ _. Unit) (real_name os platform item name w)
  real_name-Goes item name w h = elim (Bool-cases (str_ends name (lit ".vlb"))) [
    | inl virtual ↦ rw virtual (
        Goes-bind (λ _. Unit) (λ _. Unit) (call (libname os (some name)) w) _
          (libname-Goes (libname os (some name) w) ((libname-Preserves (some name)).at w h))
          λ read v _ g.
            Goes-map (λ a. read ≡ some a) _
              (required-Goes read item "could not build library name" v g))
    | inr plain ↦ rw plain (tt, h)
  ]

  pub asserted-Goes :
      {A : Type 0} (o : Option A) (w : World S)
      → HasRoot w
      → Goes (λ a. o ≡ some a) (asserted {R = Translated} o w)
  asserted-Goes none w h = tt
  asserted-Goes (some a) w h = (refl, h)

  pub deref-Goes :
      {A : Type 0} (o : Option A) (w : World S)
      → HasRoot w
      → Goes (λ a. o ≡ some a) (deref {R = Translated} o w)
  deref-Goes none w h = tt
  deref-Goes (some a) w h = (refl, h)

  -- The item that is returned with the status OK.
  abbrev pub Finds : (Item → Type 0) → Translated → Type 0
  Finds Q t = is_ok t.0 ≡ true → Q t.1

  pub accept-Goes :
      (Q : Item → Type 0) (item : Item) (w : World S)
      → HasRoot w
      → Q item
      → Goes (Finds Q) (accept os platform item w)
  unfolding install_status_assign iposix_error_message_current
  accept-Goes Q item w h q = (λ _. q, h)

  -- A call that returns OK has described the item so.
  abbrev pub Returns : (Item → Type 0) → Res S Translated → Type 0
  Returns Q (done t w) = is_ok t.0 ≡ true → Q t.1 × HasRoot w
  Returns Q (fault x) = Unit

  pub Returns-exit :
      (Q : Item → Type 0) (e : Exit S Translated Translated)
      → Goes (Finds Q) e
      → Returns Q (elim e [ next r w ↦ done r w | leave r w ↦ done r w | stop x ↦ fault x ])
  Returns-exit Q (next t w) h = λ good. (h.0 good, h.1)
  Returns-exit Q (leave t w) h = λ good. cc
  Returns-exit Q (stop x) h = tt

  -- What follows a translation that is called first.
  pub after_result :
      (Q Q' : Item → Type 0) (r : Res S Translated) (k : Translated → Proc S Translated Translated)
      → Returns Q r
      → ((t : Translated) (v : World S) → Q t.1 → HasRoot v → Goes (Finds Q') (k t v))
      → Goes
          (Finds Q')
          (elim (elim r as (λ _. Exit S Translated Translated) [
            | done a w ↦ next a w
            | fault x ↦ stop x
          ]) [
            | next a w ↦ ((if is_ok a.0 then skip else return_now a) >> k a) w
            | leave r w ↦ leave r w
            | stop x ↦ stop x
          ])
  after_result Q Q' (done t v) k h g = elim (Bool-cases (is_ok t.0)) [
    | inl good ↦ rw good (g t v (h good).0 (h good).1)
    | inr bad ↦ rw bad bad
  ]
  after_result Q Q' (fault x) k h g = tt
