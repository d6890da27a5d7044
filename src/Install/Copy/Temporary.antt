-- ===== src/Install/Copy/Temporary.antt =====
-- What the system documents of the temporary file of install_file_copy of install-core.c, and that
-- the copying loop leaves its kind and its owner.
use coreland_c_string.Base.{
  ℕ, zero, suc, ◌≡◌, Bool, true, false, Option, none, some, Bytes, ℤ, pos, minus_one, ◌==ℤ◌, arith,
  bit_and, length, String, ◌==◌, [], ◌∷◌,
}
use coreland_c_string.Install.Header.{Status, StatusCode}
use coreland_c_string.Install.World.{World, Proc, skip, ◌>>=◌, ◌>>◌}
use coreland_c_string.Install.World.Keeps.{
  Keeps, Preserves, keeps_rules, Keeps-bind, Keeps-if, Keeps-skip,
}
use coreland_c_string.Install.Os.{Os, FileInfo}
use coreland_c_string.Install.Os.Stdio.{fread, fwrite, feof, ferror, fflush}
use coreland_c_string.Install.Posix.{install_platform_posix, iposix_error_message_current}
use coreland_c_string.Install.Status.{install_status_assign, refuse_if}
use coreland_c_string.Install.Check.Installed.{StatLaws}
use coreland_c_string.Install.Copy.{write_round, write_block, copy_round, copy_loop, copy_buf_size}
use coreland_c_string.Install.Copy.Content.{StreamLaws}

-- Whether a file is a regular one, its owner, its mode in the bits 0755 and its size.
abbrev pub kind : {S : Type 0} → Os S → Option FileInfo → Option Bool
kind os none = none
kind os (some sb) = some (os.s_isreg sb.st_mode)

abbrev pub owner : Option FileInfo → Option (ℤ × ℤ)
owner none = none
owner (some sb) = some (sb.st_uid, sb.st_gid)

abbrev pub perms : Option FileInfo → Option ℕ
perms none = none
perms (some sb) = some (bit_and sb.st_mode 0o755)

abbrev pub size : Option FileInfo → Option ℕ
size none = none
size (some sb) = some sb.st_size

-- What `stat` tells of a path.
abbrev pub told : {S : Type 0} {os : Os S} → StatLaws os → Bytes → S → Option FileInfo
told L path s = (L.files s).followed path

-- The file `tmp` that is written through the stream `dst`, and then gets the name `to`.
pub record FileLaws {S : Type 0} (os : Os S) (L : StatLaws os) (src dst : ℕ)
    (C : StreamLaws os src dst) (tmp to : Bytes) : Type 0 where
  -- streams change neither the kind nor the owner of a file
  pub fread_kind :
      (n : ℕ) (s : S) → kind os (told L tmp (os.fread src n s).1) ≡ kind os (told L tmp s)
  pub fread_owner : (n : ℕ) (s : S) → owner (told L tmp (os.fread src n s).1) ≡ owner (told L tmp s)
  pub fwrite_kind :
      (b : Bytes) (s : S) → kind os (told L tmp (os.fwrite dst b s).1) ≡ kind os (told L tmp s)
  pub fwrite_owner :
      (b : Bytes) (s : S) → owner (told L tmp (os.fwrite dst b s).1) ≡ owner (told L tmp s)
  pub feof_told : (f : ℕ) (s : S) → told L tmp (os.feof f s).1 ≡ told L tmp s
  pub ferror_told : (f : ℕ) (s : S) → told L tmp (os.ferror f s).1 ≡ told L tmp s
  pub fflush_kind : (s : S) → kind os (told L tmp (os.fflush dst s).1) ≡ kind os (told L tmp s)
  pub fflush_owner : (s : S) → owner (told L tmp (os.fflush dst s).1) ≡ owner (told L tmp s)
  -- `chmod` sets the permissions alone, `chown` the owner alone
  pub chmod_kind :
      (m : ℕ) (s : S) → kind os (told L tmp (os.chmod tmp m s).1) ≡ kind os (told L tmp s)
  pub chmod_owner : (m : ℕ) (s : S) → owner (told L tmp (os.chmod tmp m s).1) ≡ owner (told L tmp s)
  pub chmod_sets :
      (m : ℕ) (s : S)
      → ((os.chmod tmp m s).0 ==ℤ pos 0) ≡ true
      → perms (told L tmp (os.chmod tmp m s).1) ≡ some (bit_and m 0o755)
  pub chown_kind :
      (u g : ℤ) (s : S) → kind os (told L tmp (os.chown tmp u g s).1) ≡ kind os (told L tmp s)
  pub chown_perms :
      (u g : ℤ) (s : S) → perms (told L tmp (os.chown tmp u g s).1) ≡ perms (told L tmp s)
  pub chown_sets :
      (u g : ℤ) (s : S)
      → ((os.chown tmp u g s).0 ==ℤ minus_one) ≡ false
      → owner (told L tmp (os.chown tmp u g s).1) ≡ some (u, g)
  -- a closed file has the size of what was written, and is as it was otherwise
  pub fclose_kind : (s : S) → kind os (told L tmp (os.fclose dst s).1) ≡ kind os (told L tmp s)
  pub fclose_owner : (s : S) → owner (told L tmp (os.fclose dst s).1) ≡ owner (told L tmp s)
  pub fclose_perms : (s : S) → perms (told L tmp (os.fclose dst s).1) ≡ perms (told L tmp s)
  pub fclose_size :
      (s : S)
      → ((os.fclose dst s).0 ==ℤ minus_one) ≡ false
      → size (told L tmp (os.fclose dst s).1) ≡ some (length (C.sunk s))
  pub fclose_source : (s : S) → told L tmp (os.fclose src s).1 ≡ told L tmp s
  -- the new name tells of the same file
  pub rename_tells :
      (s : S)
      → ((os.rename tmp to s).0 ==ℤ minus_one) ≡ false
      → told L to (os.rename tmp to s).1 ≡ told L tmp s

module _ {S : Type 0} (os : Os S) (L : StatLaws os) (src dst : ℕ) (C : StreamLaws os src dst)
    (tmp to : Bytes) (F : FileLaws os L src dst C tmp to) (k : Option Bool)
    (o : Option (ℤ × ℤ)) where
  -- The temporary file is of the kind `k` and belongs to `o`.
  abbrev pub IsTemporary : World S → Type 0
  IsTemporary w = (kind os (told L tmp w.os) ≡ k) × (owner (told L tmp w.os) ≡ o)

  Keeps-fread : {R : Type 0} (n : ℕ) → Keeps {R = R} IsTemporary (fread os src n)
  Keeps-fread n = record { at = λ w h. ground (arith, F.fread_kind n w.os, F.fread_owner n w.os) }

  Keeps-fwrite : {R : Type 0} (b : Bytes) → Keeps {R = R} IsTemporary (fwrite os dst b)
  Keeps-fwrite b = record {
    at = λ w h. ground (arith, F.fwrite_kind b w.os, F.fwrite_owner b w.os);
  }

  Keeps-feof : {R : Type 0} (f : ℕ) → Keeps {R = R} IsTemporary (feof os f)
  Keeps-feof f = record { at = λ w h. ground (arith, F.feof_told f w.os) }

  Keeps-ferror : {R : Type 0} (f : ℕ) → Keeps {R = R} IsTemporary (ferror os f)
  Keeps-ferror f = record { at = λ w h. ground (arith, F.ferror_told f w.os) }

  pub Keeps-fflush : {R : Type 0} → Keeps {R = R} IsTemporary (fflush os dst)
  Keeps-fflush = record { at = λ w h. ground (arith, F.fflush_kind w.os, F.fflush_owner w.os) }

  Preserves-status :
      (code : StatusCode) (text : Option Bytes)
      → Preserves IsTemporary (install_status_assign (install_platform_posix os) code text)
  unfolding install_status_assign iposix_error_message_current
  Preserves-status code text = record { at = λ w h. h }

  ruleset loop_rules =
      (keeps_rules, Keeps-fread, Keeps-fwrite, Keeps-feof, Keeps-ferror, Preserves-status)

  write_round-Keeps :
      (again : Bytes → Proc S Status (Unit {0})) (bytes : Bytes)
      → ((rest : Bytes) → Keeps IsTemporary (again rest))
      → Keeps IsTemporary (write_round os (install_platform_posix os) again dst bytes)
  unfolding write_round
  write_round-Keeps again [] ih = search loop_rules
  write_round-Keeps again (b ∷ bs) ih = search (loop_rules, ih) depth 30

  write_block-Keeps :
      (fuel : ℕ) (bytes : Bytes)
      → Keeps IsTemporary (write_block os (install_platform_posix os) fuel dst bytes)
  unfolding write_block
  write_block-Keeps zero bytes = search loop_rules
  write_block-Keeps (suc fuel) bytes =
      write_round-Keeps (write_block os (install_platform_posix os) fuel dst) bytes
        (write_block-Keeps fuel)

  -- What follows a read of nothing.
  abbrev read_again : Proc S Status (Unit {0}) → Proc S Status (Unit {0})
  read_again again =
      ferror os src >>= λ failed. refuse_if (install_platform_posix os) failed "read error" >> again

  refuse_if-Keeps :
      (test : Bool) (text : String)
      → Keeps IsTemporary (refuse_if (install_platform_posix os) test text)
  refuse_if-Keeps true text = search loop_rules
  refuse_if-Keeps false text = search loop_rules

  read_again-Keeps :
      (again : Proc S Status (Unit {0}))
      → Keeps IsTemporary again
      → Keeps IsTemporary (read_again again)
  read_again-Keeps again ih =
      Keeps-bind (ferror os src) _ (Keeps-ferror src)
        (λ failed. Keeps-bind _ (λ _. again) (refuse_if-Keeps failed "read error") (λ _. ih))

  copy_round-Keeps :
      (again : Proc S Status (Unit {0})) (writes : ℕ)
      → Keeps IsTemporary again
      → Keeps IsTemporary (copy_round os (install_platform_posix os) again writes src dst)
  unfolding copy_round
  copy_round-Keeps again writes ih = Keeps-bind _ _ (Keeps-fread copy_buf_size) (λ block.
      Keeps-if (length block == 0) _ _
        (Keeps-bind (feof os src) _ (Keeps-feof src)
          (λ ended. Keeps-if ended skip (read_again again) Keeps-skip (read_again-Keeps again ih)))
        (Keeps-bind (write_block os (install_platform_posix os) writes dst block) (λ _. again)
          (write_block-Keeps writes block) (λ _. ih)))

  pub copy_loop-Keeps :
      (writes fuel : ℕ)
      → Keeps IsTemporary (copy_loop os (install_platform_posix os) writes fuel src dst)
  unfolding copy_loop
  copy_loop-Keeps writes zero = search loop_rules
  copy_loop-Keeps writes (suc fuel) =
      copy_round-Keeps (copy_loop os (install_platform_posix os) writes fuel src dst) writes
        (copy_loop-Keeps writes fuel)
