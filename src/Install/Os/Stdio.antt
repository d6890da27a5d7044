-- ===== src/Install/Os/Stdio.antt =====
-- Stream functions of the C library over the system's: a call on a stream that is not open,
-- as a second `fclose` is, has undefined behaviour.
use coreland_c_string.Base.{
  ℕ, ◌+◌, ◌==◌, Bool, true, false, Option, none, some, List, [], ◌∷◌, ◌||◌, Bytes, ℤ, if◌then◌else◌,
  ◌≡◌, ◌<◌, ◌≤◌, refl, arith,
}
use coreland_c_string.Install.World.{next, stop, bad_stream, Proc}
use coreland_c_string.Install.Os.{Os}

unfoldable pub contains : ℕ → List ℕ → Bool
contains f [] = false
contains f (g ∷ gs) = f == g || contains f gs

unfoldable pub remove : ℕ → List ℕ → List ℕ
remove f [] = []
remove f (g ∷ gs) = let rest = remove f gs in if f == g then rest else g ∷ rest

module _ {S R : Type 0} (os : Os S) where
  abbrev pub fopen : Bytes → Bytes → Proc S R (Option ℕ)
  fopen path mode w =
      let (opened, s) = os.fopen w.next_stream path mode w.os in
      if opened
      then next (some w.next_stream) (record w {
        os = s;
        next_stream = w.next_stream + 1;
        open_streams = w.next_stream ∷ w.open_streams;
      })
      else next none (record w { os = s })

  -- A call on an open stream.
  abbrev on_stream : {A : Type 0} → ℕ → (S → A × S) → Proc S R A
  on_stream f op w =
      if contains f w.open_streams
      then (let (a, s) = op w.os in next a (record w { os = s }))
      else stop bad_stream

  abbrev pub fread : ℕ → ℕ → Proc S R Bytes
  fread f size = on_stream f (os.fread f size)

  abbrev pub fwrite : ℕ → Bytes → Proc S R ℕ
  fwrite f bytes = on_stream f (os.fwrite f bytes)

  abbrev pub feof : ℕ → Proc S R Bool
  feof f = on_stream f (os.feof f)

  abbrev pub ferror : ℕ → Proc S R Bool
  ferror f = on_stream f (os.ferror f)

  abbrev pub fflush : ℕ → Proc S R ℤ
  fflush f = on_stream f (os.fflush f)

  -- The stream is gone also when the call fails.
  abbrev pub fclose : ℕ → Proc S R ℤ
  fclose f w =
      if contains f w.open_streams
      then (let (r, s) = os.fclose f w.os in
          next r (record w { os = s; open_streams = remove f w.open_streams }))
      else stop bad_stream

-- A closed stream is not open.
pub contains-remove : (f : ℕ) (gs : List ℕ) → contains f (remove f gs) ≡ false
unfolding contains remove
contains-remove f [] = refl
contains-remove f (g ∷ gs) = ground (arith, contains-remove f gs)

-- Every open stream was opened before: its number lies below the next one.
abbrev pub AllBelow : ℕ → List ℕ → Type 0
AllBelow n [] = Unit
AllBelow n (g ∷ gs) = (g < n) × AllBelow n gs

pub contains_of_AllBelow : (n f : ℕ) (gs : List ℕ) → AllBelow n gs → n ≤ f → contains f gs ≡ false
unfolding contains
contains_of_AllBelow n f [] h le = refl
contains_of_AllBelow n f (g ∷ gs) h le = ground (arith, contains_of_AllBelow n f gs h.1 le)

pub remove_of_absent : (f : ℕ) (gs : List ℕ) → contains f gs ≡ false → remove f gs ≡ gs
unfolding contains remove
remove_of_absent f [] h = refl
remove_of_absent f (g ∷ gs) h = ground (arith, remove_of_absent f gs)

pub contains_self : (f : ℕ) (gs : List ℕ) → contains f (f ∷ gs) ≡ true
unfolding contains
contains_self f gs = ground arith

pub contains_later : (f g : ℕ) (gs : List ℕ) → contains f gs ≡ true → contains f (g ∷ gs) ≡ true
unfolding contains
contains_later f g gs h = ground arith

-- Closing the stream that was opened last.
pub remove_self : (f : ℕ) (gs : List ℕ) → contains f gs ≡ false → remove f (f ∷ gs) ≡ gs
unfolding remove
remove_self f gs h = ground (arith, remove_of_absent f gs h)

pub contains_tail : (f g : ℕ) (gs : List ℕ) → contains f (g ∷ gs) ≡ false → contains f gs ≡ false
unfolding contains
contains_tail f g gs h = ground arith

pub contains_next :
    (n : ℕ) (gs : List ℕ) → contains (n + 1) gs ≡ false → contains (n + 1) (n ∷ gs) ≡ false
unfolding contains
contains_next n gs h = ground arith

pub contains_of_remove :
    (f g : ℕ) (gs : List ℕ) → contains f gs ≡ false → contains f (remove g gs) ≡ false
unfolding contains remove
contains_of_remove f g [] h = refl
contains_of_remove f g (x ∷ xs) h = ground (arith, contains_of_remove f g xs)
