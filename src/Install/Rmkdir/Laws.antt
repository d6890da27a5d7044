-- ===== src/Install/Rmkdir/Laws.antt =====
-- The directories that install_rmkdir of install-core.c makes, and its result under POSIX.
use coreland_c_string.Base.{
  ℕ, zero, suc, ◌+◌, ◌-◌, ◌<◌, ◌==◌, ◌≡◌, ◌≢◌, refl, sym, ap, subst, fun_ext, ◌∙◌, ◌⊎◌, inl, inr,
  leb, Bool, true, false, some, List, [], ◌∷◌, ◌++◌, append_assoc, Bytes, length, length-append, ℤ,
  minus_one, ◌==ℤ◌, of_bool, pos, arith, Bool-cases, if◌then◌else◌,
}
use coreland_c_string.Install.Header.{Permissions, max_pathlen}
use coreland_c_string.Install.World.{
  World, M, Res, done, fault, Exit, next, leave, stop, Proc, proc, pure,
}
use coreland_c_string.Install.Os.{Os}
use coreland_c_string.Install.Platform.{Platform}
use coreland_c_string.Install.Posix.{install_platform_posix, iposix_mkdir}
use coreland_c_string.Install.Strings.{slash}
use coreland_c_string.Install.Rmkdir.{
  before_slash, from_slash, is_empty, after_slash, make_one, rmkdir_round, rmkdir_loop,
  install_rmkdir,
}

-- The directories to be made for a path, read byte by byte: `path` is what was read, and `begun`
-- tells whether a name stands at its end. Every slash ends one, and so does the end of the text if
-- a name stands there, which is marked as the last.
unfoldable pub ancestors : Bytes → Bool → Bytes → List (Bytes × Bool)
ancestors path false [] = []
ancestors path true [] = (path ++ (slash ∷ []), true) ∷ []
ancestors path begun (c ∷ cs) =
    if c == slash
    then (path ++ (slash ∷ []), false) ∷ ancestors (path ++ (slash ∷ [])) false cs
    else ancestors (path ++ (c ∷ [])) true cs

abbrev step : Bytes → Bytes → Bytes
step path rest = path ++ (before_slash rest ++ (slash ∷ []))

-- One round of the loop, as a step of the walk.
ancestors-step :
    (path : Bytes) (begun : Bool) (rest : Bytes)
    → (begun ≡ true) ⊎ (is_empty rest ≡ false)
    → ancestors path begun rest
      ≡ (step path rest, is_empty (from_slash rest))
        ∷ ancestors (step path rest) false (after_slash (from_slash rest))
unfolding ancestors before_slash from_slash
ancestors-step path true [] h = refl
ancestors-step path false [] h = ground arith
ancestors-step path begun (c ∷ cs) h = elim (Bool-cases (c == slash)) [
  | inl ends ↦ rw ends refl
  | inr goes ↦ rw goes (rw append_assoc at (ancestors-step (path ++ (c ∷ [])) true cs (inl refl)))
]

length-split : (rest : Bytes) → length (before_slash rest) + length (from_slash rest) ≡ length rest
unfolding before_slash from_slash
length-split [] = refl
length-split (c ∷ cs) = ground (arith, length-split cs)

length-after_slash : (x : Bytes) → is_empty x ≡ false → length x ≡ suc (length (after_slash x))
length-after_slash [] h = cc
length-after_slash (c ∷ cs) h = refl

after_none : (x : Bytes) → is_empty x ≡ true → is_empty (after_slash x) ≢ false
after_none [] h e = cc
after_none (c ∷ cs) h e = cc

length-path :
    (buf rest : Bytes) → length (step buf rest) ≡ length buf + length (before_slash rest) + 1
length-path buf rest = omega (
  arith,
  length-append {0} buf (before_slash rest ++ (slash ∷ [])),
  length-append {0} (before_slash rest) (slash ∷ []),
)

length-rest : (x : Bytes) → (length (after_slash x) ≡ 0) ⊎ (length x ≡ suc (length (after_slash x)))
length-rest [] = inl refl
length-rest (c ∷ cs) = inr refl

module _ {S : Type 0} (os : Os S) (platform : Platform S) (perm : Permissions) where
  -- The directories one after the other, to the first failure that stops the walk.
  unfoldable pub make_all : List (Bytes × Bool) → Proc S ℤ ℤ
  make_all [] = pure (pos 1)
  make_all ((path, end) ∷ paths) = make_one os platform perm path end (make_all paths)

  abbrev Fits : Bytes → Bytes → Type 0
  Fits buf rest = is_empty rest ≡ false → length buf + length rest + 1 < max_pathlen

  Fits-step :
      (buf rest : Bytes)
      → is_empty rest ≡ false
      → Fits buf rest
      → Fits (step buf rest) (after_slash (from_slash rest))
  Fits-step buf rest some_left fits more = elim (Bool-cases (is_empty (from_slash rest))) [
    | inl none_left ↦ absurd (after_none (from_slash rest) none_left more)
    | inr found ↦ omega (
      arith,
      length-path buf rest,
      length-split rest,
      length-after_slash (from_slash rest) found,
      fits some_left,
    )
  ]

  rmkdir_round-eq :
      (again : ℕ → Bytes → Bytes → Proc S ℤ ℤ) (buf rest : Bytes)
      → is_empty rest ≡ false
      → Fits buf rest
      → rmkdir_round os platform perm again (max_pathlen - length buf) buf rest
        ≡ make_one os platform perm (step buf rest) (is_empty (from_slash rest)) (
            again
              (max_pathlen - length (step buf rest))
              (step buf rest)
              (after_slash (from_slash rest)))
  unfolding rmkdir_round
  rmkdir_round-eq again buf rest some_left fits =
      let room : leb (max_pathlen - length buf) (length (before_slash rest) + 1) ≡ false =
        ground (arith, length-split rest, fits some_left) in
      let left : max_pathlen - length buf - length (before_slash rest) - 1
          ≡ max_pathlen - length (step buf rest) =
        omega (arith, length-path buf rest) in
      rw (some_left, room)
        (ap
          (λ (k : ℕ).
            make_one os platform perm (step buf rest) (is_empty (from_slash rest))
              (again k (step buf rest) (after_slash (from_slash rest))))
          left)

  loop_suc :
      (fuel buflen : ℕ) (buf rest : Bytes)
      → rmkdir_loop os platform perm (suc fuel) buflen buf rest
        ≡ rmkdir_round os platform perm (rmkdir_loop os platform perm fuel) buflen buf rest
  unfolding rmkdir_loop
  loop_suc fuel buflen buf rest = refl

  make_all_cons :
      (path : Bytes) (end : Bool) (paths : List (Bytes × Bool))
      → make_one os platform perm path end (make_all paths) ≡ make_all ((path, end) ∷ paths)
  unfolding make_all
  make_all_cons path end paths = refl

  rmkdir_loop-eq :
      (fuel : ℕ) (buf rest : Bytes)
      → length rest < fuel
      → Fits buf rest
      → rmkdir_loop os platform perm fuel (max_pathlen - length buf) buf rest
        ≡ make_all (ancestors buf false rest)
  rmkdir_loop-eq zero buf rest enough fits = elim enough [ ]
  rmkdir_loop-eq (suc fuel) buf [] enough fits = unfold ancestors rmkdir_loop make_all in refl
  rmkdir_loop-eq (suc fuel) buf (c ∷ cs) enough fits =
      rw (ancestors-step buf false (c ∷ cs) (inr refl)) (
        loop_suc fuel (max_pathlen - length buf) buf (c ∷ cs)
        ∙ rmkdir_round-eq (rmkdir_loop os platform perm fuel) buf (c ∷ cs) refl fits
        ∙ ap (make_one os platform perm (step buf (c ∷ cs)) (is_empty (from_slash (c ∷ cs)))) (
            rmkdir_loop-eq fuel (step buf (c ∷ cs)) (after_slash (from_slash (c ∷ cs)))
              (omega (arith, length-split (c ∷ cs), length-rest (from_slash (c ∷ cs))))
              (Fits-step buf (c ∷ cs) refl fits))
        ∙ make_all_cons _ _ _)

  -- On any platform, for a path of at most 1022 bytes, install_rmkdir makes the directory of every prefix of
  -- the path that ends in a slash and then the whole path, in this order, and returns 0 at the
  -- first failure that it does not tolerate.
  pub install_rmkdir-eq-make_all :
      (dir : Bytes)
      → length dir + 1 < max_pathlen
      → install_rmkdir os platform perm (some dir) ≡ proc (make_all (ancestors [] false dir))
  unfolding install_rmkdir
  install_rmkdir-eq-make_all dir short =
      let fits : leb max_pathlen (length dir) ≡ false = ground arith in
      fun_ext λ w.
        rw (proc, fits)
          (ap (λ (p : Proc S ℤ ℤ). proc p w)
            (rmkdir_loop-eq (length dir + 1) [] dir (omega arith) (λ _. omega arith)))

-- The call returned the value.
abbrev pub Returns : {S A : Type 0} → A → Res S A → Type 0
Returns a (done b w) = b ≡ a
Returns a (fault x) = ⊥

-- A call that returns anything but -1.
abbrev pub NeverMinusOne : {S : Type 0} → Res S ℤ → Type 0
NeverMinusOne (done r w) = (r ==ℤ minus_one) ≡ false
NeverMinusOne (fault x) = ⊥

returned :
    {S : Type 0} (r : Res S ℤ)
    → NeverMinusOne r
    → (a : ℤ) × (w : World S) × (r ≡ done a w) × ((a ==ℤ minus_one) ≡ false)
returned (done a w) h = (a, w, refl, h)
returned (fault x) h = elim h [ ]

module _ {S : Type 0} (os : Os S) (platform : Platform S) (perm : Permissions)
    (never : (path : Bytes) (w : World S) → NeverMinusOne (platform.make_dir path perm w)) where
  abbrev Gives : Exit S ℤ ℤ → Type 0
  Gives (next a w) = a ≡ pos 1
  Gives (leave a w) = a ≡ pos 1
  Gives (stop x) = ⊥

  make_all-Gives :
      (paths : List (Bytes × Bool)) (w : World S) → Gives (make_all os platform perm paths w)
  unfolding make_all
  make_all-Gives [] w = refl
  make_all-Gives ((path, end) ∷ paths) w =
      let (a, w', made, not_minus_one) = returned (platform.make_dir path perm w) (never path w) in
      rw (Gives, made, not_minus_one) (make_all-Gives paths w')

  make_all-Returns :
      (paths : List (Bytes × Bool)) (w : World S)
      → Returns (pos 1) (proc (make_all os platform perm paths) w)
  make_all-Returns paths w = ground (arith, make_all-Gives paths w)

  -- On a platform whose make_dir never returns -1 install_rmkdir returns 1.
  pub install_rmkdir-Returns :
      (dir : Bytes) (w : World S)
      → length dir + 1 < max_pathlen
      → Returns (pos 1) (install_rmkdir os platform perm (some dir) w)
  install_rmkdir-Returns dir w short =
      subst (λ (m : M S ℤ). Returns (pos 1) (m w))
        (sym (install_rmkdir-eq-make_all os platform perm dir short))
        (make_all-Returns (ancestors [] false dir) w)

pub of_bool_never : (b : Bool) → (of_bool b ==ℤ minus_one) ≡ false
of_bool_never true = refl
of_bool_never false = refl

module _ {S : Type 0} (os : Os S) (perm : Permissions) where
  -- On a POSIX system install_rmkdir returns 1 for every path of at most 1022 bytes, whatever the
  -- calls of mkdir return.
  pub install_rmkdir-posix :
      (dir : Bytes) (w : World S)
      → length dir + 1 < max_pathlen
      → Returns (pos 1) (install_rmkdir os (install_platform_posix os) perm (some dir) w)
  unfolding iposix_mkdir
  install_rmkdir-posix dir w short =
      install_rmkdir-Returns os (install_platform_posix os) perm
        (λ path w. of_bool_never ((os.mkdir path perm w.os).0 ==ℤ pos 0)) dir w short
