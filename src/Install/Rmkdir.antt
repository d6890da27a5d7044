-- ===== src/Install/Rmkdir.antt =====
-- install_rmkdir of install-core.c, which makes a directory and those that it lies in.
pub mod Laws
pub mod Windows
use coreland_c_string.Base.{
  ℕ, zero, suc, ◌+◌, ◌-◌, ◌==◌, leb, Bool, true, false, ◌&&◌, ◌||◌, not, Option, none, some, List,
  [], ◌∷◌, ◌++◌, Bytes, length, ℤ, pos, minus_one, ◌==ℤ◌, if◌then◌else◌,
}
use coreland_c_string.Install.Header.{Permissions, max_pathlen}
use coreland_c_string.Install.World.{
  World, M, Res, done, fault, Exit, next, leave, stop, Proc, proc, call, gets, modify, pure, raise,
  return_now, asserted, out_of_fuel, ◌>>=◌, ◌>>◌,
}
use coreland_c_string.Install.Os.{Os}
use coreland_c_string.Install.Platform.{Platform}
use coreland_c_string.Install.Strings.{slash}

-- `strchr (ptr, '/')`: what stands before the first slash, and what begins with it.
unfoldable pub before_slash : Bytes → Bytes
before_slash [] = []
before_slash (c ∷ cs) = if c == slash then [] else c ∷ before_slash cs

unfoldable pub from_slash : Bytes → Bytes
from_slash [] = []
from_slash (c ∷ cs) = let rest = from_slash cs in if c == slash then c ∷ cs else rest

abbrev pub is_empty : Bytes → Bool
is_empty [] = true
is_empty (_ ∷ _) = false

-- `++ptr` over the slash that stands there.
abbrev pub after_slash : Bytes → Bytes
after_slash [] = []
after_slash (_ ∷ cs) = cs

module _ {S : Type 0} (os : Os S) (platform : Platform S) (perm : Permissions) where
  -- The test of `errno` after a failure on the way.
  abbrev pub is_tolerated : World S → Bool
  is_tolerated w = (os.errno w.os == os.eexist) || (os.errno w.os == os.eisdir)

  -- What one round makes of the result of `make_dir`: `true` for `return 0`.
  abbrev pub gives_up : ℤ → Bool → World S → Bool
  gives_up made end w = (made ==ℤ minus_one) && (if end then true else not (is_tolerated w))

  -- One call of `make_dir`, and what follows if the walk goes on.
  abbrev pub make_one : Bytes → Bool → Proc S ℤ ℤ → Proc S ℤ ℤ
  make_one path end further = do
    made ← call (platform.make_dir path perm)
    stops ← gets (gives_up made end)
    elim stops [ true ↦ return_now (pos 0) | false ↦ further ]

  -- A round of the loop: `buf` is the path so far, `buflen` the room that is left and `rest` what
  -- `ptr` and `len` delimit; `again` is the next round.
  unfoldable pub rmkdir_round : (ℕ → Bytes → Bytes → Proc S ℤ ℤ) → ℕ → Bytes → Bytes → Proc S ℤ ℤ
  rmkdir_round again buflen buf rest =
      if is_empty rest
      then pure (pos 1)
      else let segment = before_slash rest in
        let more = from_slash rest in
        let path = buf ++ (segment ++ (slash ∷ [])) in
        if leb buflen (length segment + 1)
        then pure (pos 1)
        else make_one path (is_empty more)
            (again (buflen - length segment - 1) path (after_slash more))

  unfoldable pub rmkdir_loop : ℕ → ℕ → Bytes → Bytes → Proc S ℤ ℤ
  unfolding rmkdir_round
  rmkdir_loop zero buflen buf rest = raise out_of_fuel
  rmkdir_loop (suc fuel) buflen buf rest = rmkdir_round (rmkdir_loop fuel) buflen buf rest

  -- `install_rmkdir`. Each round takes a byte at least, so the length and one more is fuel enough.
  unfoldable pub install_rmkdir : Option Bytes → M S ℤ
  install_rmkdir dir = proc do
    path ← asserted dir
    if leb max_pathlen (length path)
        then modify (λ w. record w { os = os.set_errno os.enametoolong w.os }) >> return_now (pos 0)
        else rmkdir_loop (length path + 1) max_pathlen [] path
