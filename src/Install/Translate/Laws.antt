-- ===== src/Install/Translate/Laws.antt =====
-- Where ntran_copy of install-core.c puts a file.
use coreland_c_string.Base.{
  ℕ, ◌-◌, ◌<◌, ◌≤◌, ◌==◌, [], ◌∷◌, ap, ltb, pos, Bool-cases, inl, inr, if◌then◌else◌, ◌^◌, ◌%◌, ◌≡◌,
  ◌∙◌, refl, true, false, Option, none, some, ◌++◌, Bytes, length, lit, take, is_negative,
  snprintf_value, arith,
}
use coreland_c_string.Install.Header.{Item, Status, ok, max_pathlen}
use coreland_c_string.Install.World.{buffer_overflow, proc, World, Res, done, fault}
use coreland_c_string.Install.Os.{Os}
use coreland_c_string.Install.Posix.{install_platform_posix, iposix_error_message_current}
use coreland_c_string.Install.Os.Stdio.{fopen, contains, contains_self, remove_self}
use coreland_c_string.Install.Status.{install_status_assign}
use coreland_c_string.Install.Strings.{str_ends, clean_blanks, is_blank, c_string}
use coreland_c_string.Install.Strings.BaseName.{NoSlash, IsDirPart, path, base_name-path}
use coreland_c_string.Install.Translate.{ntran_copy, default_dst, libname, clean_name}

-- The path of a file in a directory, behind the fake root if one is set.
abbrev pub target : Option Bytes → Bytes → Bytes → Bytes
target none dir name = dir ++ (lit "/" ++ name)
target (some root) dir name = (root ++ (lit "/" ++ dir)) ++ (lit "/" ++ name)

printed : (text : Bytes) → length text < 2 ^ 31 → is_negative (snprintf_value text) ≡ false
unfolding snprintf_value
printed text short = ground arith

-- The status OK, with the system's message.
abbrev pub succeeded : {S : Type 0} → Os S → World S → Status
succeeded os w = record {
  status = ok;
  message = none;
  error_message = some (os.strerror (os.errno w.os % 2 ^ 64));
}

module _ {S : Type 0} (os : Os S) (item : Item) (w : World S) (src dir d n : Bytes) (k : ℕ)
    (part : IsDirPart d) (clean : NoSlash n) (named : 0 < length n) where
  -- On a POSIX system, for a source and a destination that are no virtual library files, the
  -- destination a path of fewer than 1024 bytes with a name, and a new path of fewer than 2^31
  -- bytes, ntran_copy returns OK and makes the destination the file of its base name in the item's directory, behind the fake root if one is
  -- set, cut to 1023 bytes without an error. A missing destination is the source's.
  pub ntran_copy-target :
      default_dst os (install_platform_posix os) item.dst (some src) ≡ some (path d n k)
      → str_ends src (lit ".vlb") ≡ false
      → str_ends (path d n k) (lit ".vlb") ≡ false
      → length (path d n k) < max_pathlen
      → length (target w.fake_root dir n) < 2 ^ 31
      → ntran_copy os (install_platform_posix os) (record item { src = some src; dir = some dir }) w
        ≡ done
            (
              succeeded os w,
              record item {
                src = some src;
                dir = some dir;
                dst = some (take (max_pathlen - 1) (target w.fake_root dir n));
              },
            )
            w
  unfolding ntran_copy install_status_assign iposix_error_message_current
  ntran_copy-target has_dst plain_src plain_dst short fits = ground (
    arith,
    has_dst,
    plain_src,
    plain_dst,
    base_name-path d n k part clean named short,
    printed (target w.fake_root dir n) fits,
  )

-- A space, a tab, a newline or a carriage return.
abbrev pub blanks : Bytes
blanks = b' ' ∷ b'\t' ∷ b'\n' ∷ b'\r' ∷ []

is_blank-blanks : (c : ℕ) → is_blank c ≡ contains c blanks
unfolding contains
is_blank-blanks c = ground arith

-- A text without blanks and NULs.
abbrev pub IsWord : Bytes → Type 0
IsWord [] = Unit
IsWord (c ∷ cs) = (contains c blanks ≡ false) × ((c == 0) ≡ false) × IsWord cs

abbrev pub StartsBlank : Bytes → Type 0
StartsBlank [] = Unit
StartsBlank (c ∷ cs) = contains c blanks ≡ true

clean_blanks-word :
    (word rest : Bytes) → IsWord word → StartsBlank rest → clean_blanks (word ++ rest) ≡ word
unfolding clean_blanks
clean_blanks-word [] [] h starts = refl
clean_blanks-word [] (c ∷ cs) h starts = rw (clean_blanks, is_blank-blanks c ∙ starts) refl
clean_blanks-word (c ∷ word) rest (plain, _, more) starts =
    rw (clean_blanks, is_blank-blanks c ∙ plain)
      (ap (λ t. c ∷ t) (clean_blanks-word word rest more starts))

c_string-word : (word : Bytes) → IsWord word → c_string word ≡ word
unfolding c_string
c_string-word [] h = refl
c_string-word (c ∷ word) (_, no_nul, more) = rw no_nul (ap (λ t. c ∷ t) (c_string-word word more))

-- What libname makes of a word at the start of a file: its name, if it leaves room for the NUL in
-- a buffer of 1024 bytes, and else a write behind the buffer.
abbrev pub Names : {S : Type 0} → Bytes → World S → Res S (Option Bytes) → Type 0
Names word w (done name v) =
    (length word < max_pathlen) × (name ≡ some word) × (v.open_streams ≡ w.open_streams)
Names word w (fault x) = (max_pathlen ≤ length word) × (x ≡ buffer_overflow)

clean_name-word :
    (word rest : Bytes)
    → IsWord word
    → StartsBlank rest
    → clean_name (word ++ rest) ≡ (if ltb (length word) max_pathlen then some word else none)
unfolding clean_name
clean_name-word word rest is_word starts =
    rw (clean_blanks-word word rest is_word starts, c_string-word word is_word) refl

module _ {S : Type 0} (os : Os S) (name word rest : Bytes) (w : World S) (is_word : IsWord word)
    (starts : StartsBlank rest) where
  -- The state in which the file is read.
  abbrev opened_at : S
  opened_at = (os.fopen w.next_stream name (lit "rb") w.os).1

  abbrev read_at : S
  read_at = (os.fread w.next_stream max_pathlen opened_at).1

  -- For a virtual library file that can be opened as a stream not open yet, read without an error
  -- and closed, whose first 1024 bytes are a word without blanks and NULs with nothing or a blank
  -- behind it, libname gives the word and leaves the streams open that were open before, if the
  -- word has fewer than 1024 bytes; else it writes the NUL behind its buffer, which has 1024.
  pub libname-word :
      (os.fopen w.next_stream name (lit "rb") w.os).0 ≡ true
      → (os.fread w.next_stream max_pathlen opened_at).0 ≡ word ++ rest
      → ((s : S) → (os.ferror w.next_stream s).0 ≡ false)
      → ((s : S) → (os.fclose w.next_stream s).0 ≡ pos 0)
      → contains w.next_stream w.open_streams ≡ false
      → Names word w (libname os (some name) w)
  unfolding libname
  libname-word opened read no_error closed new =
      let is_open = contains_self w.next_stream w.open_streams in
      let gone = remove_self w.next_stream w.open_streams new in
      let cleaned = clean_name-word word rest is_word starts in
      rw (libname, proc, fopen, opened)
        (rw (is_open, read)
          (elim (Bool-cases (ltb (length (word ++ rest)) max_pathlen)) [
            | inl short ↦ rw short (
                rw (is_open, no_error read_at, read, cleaned)
                  (elim (Bool-cases (ltb (length word) max_pathlen)) [
                    | inl room ↦ rw room (
                        rw (is_open, closed (os.ferror w.next_stream read_at).1, gone)
                          (ground arith, refl, refl))
                    | inr no_room ↦ rw no_room (ground arith, refl)
                  ]))
            | inr full ↦ rw full (
                rw (read, cleaned)
                  (elim (Bool-cases (ltb (length word) max_pathlen)) [
                    | inl room ↦
                        rw room (rw (is_open, closed read_at, gone) (ground arith, refl, refl))
                    | inr no_room ↦ rw no_room (ground arith, refl)
                  ]))
          ]))
