-- ===== src/Install/Interface/Init.antt =====
-- The suffix of dynamic libraries that install_init of install-core.c reads.
use coreland_c_string.Base.{
  ℕ, zero, suc, ◌+◌, ◌-◌, ◌==◌, ◌≡◌, refl, ap, true, false, none, some, [], ◌∷◌, ◌++◌, Bytes,
  length, pos, replicate, lit, arith, if◌then◌else◌, Bool-cases, inl, inr,
}
use coreland_c_string.Install.Header.{ok, status_init}
use coreland_c_string.Install.World.{proc, World, done}
use coreland_c_string.Install.Os.{Os}
use coreland_c_string.Install.Os.Stdio.{fopen, contains_self, remove_self, contains}
use coreland_c_string.Install.Posix.{install_platform_posix, iposix_init}
use coreland_c_string.Install.Strings.{c_string, install_suffix_sanitize, is_suffix_char}
use coreland_c_string.Install.Interface.{install_init, install_fake_root, suffix_size}

-- The characters before the first that is neither a dot, a digit nor a letter.
unfoldable pub suffix_of : Bytes → Bytes
suffix_of [] = []
suffix_of (c ∷ cs) = let rest = suffix_of cs in if is_suffix_char c then c ∷ rest else []

not_nul : (c : ℕ) → is_suffix_char c ≡ true → (c == 0) ≡ false
not_nul zero h = ground arith
not_nul (suc c) h = ground arith

c_string-zeros : (k : ℕ) → c_string (install_suffix_sanitize (replicate k 0)) ≡ []
unfolding c_string install_suffix_sanitize
c_string-zeros zero = refl
c_string-zeros (suc k) = refl

c_string-sanitize :
    (read : Bytes) (k : ℕ)
    → c_string (install_suffix_sanitize (read ++ replicate k 0)) ≡ suffix_of read
unfolding c_string install_suffix_sanitize suffix_of
c_string-sanitize [] k = c_string-zeros k
c_string-sanitize (c ∷ cs) k =
    let rest = c_string-sanitize cs k in
    elim (Bool-cases (is_suffix_char c)) [
      | inl goes ↦ rw goes (rw (not_nul c goes) (ap (λ (x : Bytes). c ∷ x) rest))
      | inr ends ↦ rw ends refl
    ]

module _ {S : Type 0} (os : Os S) (writes fuel : ℕ) (file : Bytes) (w : World S) where
  -- Where the system stands once the file is open, once it is read, and once it is closed.
  abbrev opened_at : S
  opened_at = (os.fopen w.next_stream file (lit "rb") w.os).1

  abbrev bytes : Bytes
  bytes = (os.fread w.next_stream (suffix_size - 2) opened_at).0

  abbrev read_at : S
  read_at = (os.fread w.next_stream (suffix_size - 2) opened_at).1

  abbrev ended_at : S
  ended_at = (os.fclose w.next_stream read_at).1

  -- On a POSIX system and without a fake root, install_init called with a suffix file that can be
  -- opened as a stream not open yet, gives some
  -- bytes and can be closed returns OK, with the suffix of dynamic libraries a dot and what the
  -- bytes have before the first that is neither a dot, a digit nor a letter, an empty suffix of
  -- programs, and the streams open that were open before.
  pub install_init-suffix :
      (os.fopen w.next_stream file (lit "rb") w.os).0 ≡ true
      → (length bytes == 0) ≡ false
      → (os.fclose w.next_stream read_at).0 ≡ pos 0
      → contains w.next_stream w.open_streams ≡ false
      → install_init os
          (install_platform_posix os)
          writes
          fuel
          (some file)
          (install_fake_root none w)
        ≡ done
            (record status_init { status = ok })
            (record w {
              os = ended_at;
              exec_suffix = [];
              dlib_suffix = b'.' ∷ suffix_of bytes;
              fake_root = none;
              next_stream = w.next_stream + 1;
            })
  unfolding install_init iposix_init c_string install_suffix_sanitize install_fake_root
  install_init-suffix opened some_read closed new =
      let suffix = c_string-sanitize bytes (suffix_size - 1 - length bytes) in
      rw (install_init, proc, fopen, opened)
        (rw (contains_self w.next_stream w.open_streams) (
          rw (some_read) (
            rw (contains_self w.next_stream w.open_streams, closed)
              (rw (suffix, remove_self w.next_stream w.open_streams new) refl))))
