-- ===== src/Install/Copy/Checked.antt =====
-- install_file_copy and install_file_check of install-core.c, one after the other: what was copied
-- passes its check.
use coreland_c_string.Base.{
  ℕ, ◌+◌, ◌<◌, ◌%◌, ◌^◌, ◌≡◌, ◌≢◌, sym, ap, ◌∙◌, subst, true, Option, none, some, ◌++◌, Bytes, ℤ,
  bit_and, length,
}
use mathlib.Core.Option.{some-injective}
use coreland_c_string.Base.Digits.{IsInt}
use coreland_c_string.Install.Header.{Status, ok, file, Permissions, UserNumber, GroupNumber}
use coreland_c_string.Install.World.{World, Res, done, fault}
use coreland_c_string.Install.Os.{Os, FileInfo}
use coreland_c_string.Install.Posix.{install_platform_posix}
use coreland_c_string.Install.FileTypes.{type_of_info}
use coreland_c_string.Install.Check.{install_file_check}
use coreland_c_string.Install.Check.Installed.{
  Files, Has, recorded_size, StatLaws, IsQuiet, HasIntOwner, IsInstalled,
}
use coreland_c_string.Install.Check.Decides.{Decides, install_file_check-Decides}
use coreland_c_string.Install.Copy.{copy_buf_size, install_file_copy}
use coreland_c_string.Install.Copy.Content.{StreamLaws}
use coreland_c_string.Install.Copy.Streams.{opened_at}
use coreland_c_string.Install.Copy.Ways.{OkIn, temporary}
use coreland_c_string.Install.Copy.Whole.{KeepsSunk}
use coreland_c_string.Install.Copy.Temporary.{kind, owner, perms, size, told, FileLaws}
use coreland_c_string.Install.Copy.Placed.{given, IsPlaced, install_file_copy-Places}

-- The check returns OK and changes no file.
abbrev pub Passes : {S : Type 0} → (S → Files) → Files → Res S Status → Type 0
Passes files found (done st w) = (st.status ≡ ok) × (files w.os ≡ found)
Passes files found (fault x) = ⊥

OkIn-done :
    {S : Type 0} (P : World S → Type 0) (r : Res S Status) (st : Status) (v : World S)
    → OkIn P r
    → r ≡ done st v
    → st.status ≡ ok
    → P v
OkIn-done P r st v h e good = subst (OkIn P) e h good

-- What the parts of a file's information tell of it.
module _ {S : Type 0} (os : Os S) (mode n : ℕ) (uid gid : ℤ) where
  has_source : (o : Option FileInfo) → size o ≡ some n → Has o (λ sb. Unit)
  has_source none h = cc
  has_source (some sb) h = tt

  of_known_type : (o : Option FileInfo) → kind os o ≡ some true → type_of_info os o ≢ none
  unfolding type_of_info
  of_known_type none h = cc
  of_known_type (some sb) h = rw (type_of_info, some-injective _ _ h) (λ e. cc)

  of_size :
      (a b : Option FileInfo)
      → size a ≡ some n
      → size b ≡ some n
      → Has b (λ sb. recorded_size a ≡ sb.st_size % 2 ^ 64)
  of_size none b h h' = cc
  of_size (some sa) none h h' = cc
  of_size (some sa) (some sb) h h' =
      ap (λ (k : ℕ). k % 2 ^ 64) (some-injective _ _ h ∙ sym (some-injective _ _ h'))

  of_mode :
      (o : Option FileInfo) → perms o ≡ some mode → Has o (λ sb. bit_and sb.st_mode 0o755 ≡ mode)
  of_mode none h = cc
  of_mode (some sb) h = some-injective _ _ h

  of_owner :
      (o : Option FileInfo)
      → owner o ≡ some (uid, gid)
      → Has o (λ sb. (uid ≡ sb.st_uid) × (gid ≡ sb.st_gid))
  of_owner none h = cc
  of_owner (some sb) h = (cc, cc)

  has_int_owner :
      (o : Option FileInfo) → owner o ≡ some (uid, gid) → IsInt uid → IsInt gid → HasIntOwner o
  has_int_owner none h u g = tt
  has_int_owner (some sb) h u g =
      let at_uid : sb.st_uid ≡ uid = cc in
      let at_gid : sb.st_gid ≡ gid = cc in (subst IsInt (sym at_uid) u, subst IsInt (sym at_gid) g)

module _ {S : Type 0} (os : Os S) (L : StatLaws os) (src dst : Bytes) (mode : Permissions)
    (uid : UserNumber) (gid : GroupNumber) (v : World S) (n : ℕ) where
  placed-IsInstalled :
      size (told L src v.os) ≡ some n
      → IsPlaced os L dst n (some true) mode (some (uid, gid)) v
      → IsInstalled os (L.files v.os) src dst file mode uid gid
  placed-IsInstalled source placed = record {
    has_source = λ _. has_source os mode n uid gid _ source;
    of_known_type = of_known_type os mode n uid gid _ placed.1;
    of_size = λ _. of_size os mode n uid gid _ _ source placed.0;
    of_mode = of_mode os mode n uid gid _ placed.2;
    of_owner = of_owner os mode n uid gid _ placed.3;
  }

Decides-Passes :
    {S : Type 0} (files : S → Files) (P : Type 0) (found : Files) (r : Res S Status)
    → Decides files P found r
    → P
    → Passes files found r
Decides-Passes files P found (done st w) h p = (h.0.1 p, h.1)
Decides-Passes files P found (fault x) h p = h

-- The temporary file when both files have been opened.
abbrev pub opened_file :
    {S : Type 0} {os : Os S} → StatLaws os → Bytes → Bytes → World S → Option FileInfo
opened_file {os} L src dst w = told L (temporary dst) (opened_at os w src dst)

module _ {S : Type 0} (os : Os S) (L : StatLaws os) (writes fuel : ℕ) (src dst : Bytes)
    (uid : UserNumber) (gid : GroupNumber) (mode : Permissions) (w v : World S) (st : Status) where
  -- Under POSIX, with streams, file attributes and stat as documented, and fuel enough: a regular
  -- file that install_file_copy has copied with the status OK passes install_file_check for the
  -- same mode and owner, and the check changes no file. This is so if the mode has bits of 0755
  -- only, if the owner is another user than that of the process or else the temporary file was made
  -- with the owner and the group wanted, if the source still has the size of what was read, if the
  -- owner's numbers are `int`s and if the callback changes no file.
  pub install_file_check-copied :
      (C : StreamLaws os w.next_stream (w.next_stream + 1))
      → KeepsSunk os w.next_stream (w.next_stream + 1) C
      → FileLaws os L w.next_stream (w.next_stream + 1) C (temporary dst) dst
      → copy_buf_size < writes
      → length (C.unread (opened_at os w src dst)) < fuel
      → kind os (opened_file L src dst w) ≡ some true
      → bit_and mode 0o755 ≡ mode
      → given (os.getuid w.os).0 uid gid (owner (opened_file L src dst w)) ≡ some (uid, gid)
      → install_file_copy os
          (install_platform_posix os)
          writes
          fuel
          (some src)
          (some dst)
          uid
          gid
          mode
          w
        ≡ done st v
      → st.status ≡ ok
      → size (told L src v.os)
        ≡ some (length (C.sunk (opened_at os w src dst) ++ C.unread (opened_at os w src dst)))
      → IsInt uid
      → IsInt gid
      → IsQuiet L.files v.callback_info
      → Passes L.files (L.files v.os) (
          install_file_check os
            (install_platform_posix os)
            (some src)
            mode
            file
            uid
            gid
            (some dst)
            v)
  install_file_check-copied C K F room enough regular plain owned copied good source int_uid int_gid
        quiet =
      let n : ℕ = length (C.sunk (opened_at os w src dst) ++ C.unread (opened_at os w src dst)) in
      let placed : IsPlaced os L dst n (some true) mode (some (uid, gid)) v =
        let p =
          OkIn-done _ _ st v
            (install_file_copy-Places os L writes fuel src dst uid gid mode w C K F room enough)
            copied good in
        (p.0, p.1 ∙ regular, p.2 ∙ ap some plain, p.3 ∙ owned) in
      Decides-Passes L.files (IsInstalled os (L.files v.os) src dst file mode uid gid)
        (L.files v.os) _
        (install_file_check-Decides os L src dst file mode uid gid v int_uid int_gid
          (has_int_owner os mode n uid gid _ placed.3 int_uid int_gid) quiet)
        (placed-IsInstalled os L src dst mode uid gid v n source placed)
