-- ===== src/Install/Check/Decides.antt =====
-- install_file_check of install-core.c, under POSIX, finds out whether a file is installed.
use coreland_c_string.Base.{
  ◌%◌, ◌^◌, ◌≡◌, ◌≢◌, refl, sym, ◌∙◌, inl, inr, ◌↔◌, true, none, some, Bytes, Option-cases, bit_and,
  if◌then◌else◌, subst,
}
use coreland_c_string.Base.Digits.{IsInt}
use coreland_c_string.Install.Header.{Status, ok, FileType, Permissions, UserNumber, GroupNumber}
use coreland_c_string.Install.World.{World, Res, done, fault, Exit, next, leave, stop}
use coreland_c_string.Install.Os.{Os}
use coreland_c_string.Install.Posix.{
  install_platform_posix, iposix_error_reset, iposix_gid_free, iposix_uid_free,
}
use coreland_c_string.Install.FileTypes.{type_of_info}
use coreland_c_string.Install.FileTypes.Laws.{lookup-name_lookup}
use coreland_c_string.Install.Check.{install_file_check, is_file, is_symlink}
use coreland_c_string.Install.Check.Installed.{
  Files, Has, StatLaws, IsQuiet, recorded_size, HasIntOwner, IsInstalled,
}
use coreland_c_string.Install.Check.Statements.{
  Sees, Judged, JudgedExit, JudgedExit-bind, check_type-Tests, check_mode-Tests,
}
use coreland_c_string.Install.Check.Owners.{
  size_found, JudgedExit-go, format_uid-Goes, format_gid-Goes, announce_to-Goes, source_size-Goes,
  refuse_source-Tests, check_found-Tests, freed_owner-Judged,
}

module _ {S : Type 0} (os : Os S) (L : StatLaws os) (found : Files) where
  -- What is tested, in the order of the tests.
  abbrev AllTests : Bytes → Bytes → FileType → Permissions → UserNumber → GroupNumber → Type 0
  AllTests src dst type mode uid gid =
      (is_file type ≡ true → Has (found.followed src) (λ sb. Unit))
      × ((type_of_info os (if is_symlink type then found.unfollowed dst else found.followed dst)
            ≢ none)
          × ((is_file type ≡ true
                → Has (found.followed dst)
                    (λ sb. (size_found os L found type src).1 ≡ sb.st_size % 2 ^ 64))
              × ((Has (found.followed dst) (λ sb. bit_and sb.st_mode 0o755 ≡ mode))
                  × Has (found.followed dst) (λ sb. (uid ≡ sb.st_uid) × (gid ≡ sb.st_gid)))))

  abbrev JudgedRes : Type 0 → Res S Status → Type 0
  JudgedRes P (done st w) = Judged os L found P st w
  JudgedRes P (fault x) = ⊥

  JudgedRes-proc :
      (P : Type 0) (e : Exit S Status Status)
      → JudgedExit os L found P e
      → JudgedRes P (elim e [ next r w' ↦ done r w' | leave r w' ↦ done r w' | stop x ↦ fault x ])
  JudgedRes-proc P (next st w) h = h
  JudgedRes-proc P (leave st w) h = h
  JudgedRes-proc P (stop x) h = h

  install_file_check-Judged :
      (src dst : Bytes) (type : FileType) (mode : Permissions) (uid : UserNumber)
      (gid : GroupNumber) (w : World S)
      → IsInt uid
      → IsInt gid
      → HasIntOwner (found.followed dst)
      → Sees os L found w
      → JudgedRes (AllTests src dst type mode uid gid) (
          install_file_check os
            (install_platform_posix os)
            (some src)
            mode
            type
            uid
            gid
            (some dst)
            w)
  unfolding install_file_check iposix_error_reset iposix_uid_free iposix_gid_free
  install_file_check-Judged src dst type mode uid gid w int_uid int_gid int_owner h =
      let (name, named, _) = lookup-name_lookup type in
      rw named (
        JudgedRes-proc (AllTests src dst type mode uid gid) _ (
          JudgedExit-go os L found (λ size. size ≡ size_found os L found type src) _ _ _
            (source_size-Goes os L found type src (record w { os = os.set_errno 0 w.os })
              (L.errno_keeps 0 w.os ∙ h.0, h.1))
            λ size v got seen.
              JudgedExit-bind os L found (λ _. Unit) _ _ _ _
                (refuse_source-Tests os L found type src size _ v got seen)
                λ _ v _ has_source seen.
                  JudgedExit-go os L found (λ _. Unit) _ _ _
                    (format_uid-Goes os L found uid v int_uid seen)
                    λ uid_text v _ seen.
                      JudgedExit-go os L found (λ _. Unit) _ _ _
                        (format_gid-Goes os L found gid v int_gid seen)
                        λ gid_text v _ seen.
                          JudgedExit-go os L found (λ _. Unit) _ _ _
                            (announce_to-Goes os L found v.callback_info _ v seen.1 seen)
                            λ _ v _ seen.
                              JudgedExit-bind os L found (λ _. Unit) _ _ _ _
                                (check_type-Tests os L found dst v seen type name)
                                λ _ v _ known seen.
                                  JudgedExit-bind os L found (λ _. Unit) _ _ _ _
                                    (check_found-Tests os L found src dst v seen type size got)
                                    λ _ v _ same seen.
                                      JudgedExit-bind os L found (λ _. Unit) _ _ _ _
                                        (check_mode-Tests os L found dst v seen mode)
                                        λ _ v _ same_mode seen.
                                          freed_owner-Judged os L found uid gid uid_text gid_text
                                            dst v seen int_owner))

-- The status that a call returns is OK if and only if `P` holds, and the files are as they were found.
abbrev pub Decides : {S : Type 0} → (S → Files) → Type 0 → Files → Res S Status → Type 0
Decides files P found (done st w) = ((st.status ≡ ok) ↔ P) × (files w.os ≡ found)
Decides files P found (fault x) = ⊥

module _ {S : Type 0} (os : Os S) (L : StatLaws os) (found : Files) where
  size_found-recorded :
      (type : FileType) (src : Bytes)
      → is_file type ≡ true
      → (size_found os L found type src).1 ≡ recorded_size (found.followed src)
  size_found-recorded type src file = elim (Option-cases (found.followed src)) [
    | inl e ↦ rw (file, e) refl
    | inr (sb, e) ↦ rw (file, e) refl
  ]

  module _ (src dst : Bytes) (type : FileType) (mode : Permissions) (uid : UserNumber)
      (gid : GroupNumber) where
    AllTests-IsInstalled :
        AllTests os L found src dst type mode uid gid
        ↔ IsInstalled os found src dst type mode uid gid
    AllTests-IsInstalled = (
      λ t. record {
        has_source = t.0;
        of_known_type = t.1.0;
        of_size = λ file.
            subst (λ n. Has (found.followed dst) (λ sb. n ≡ sb.st_size % 2 ^ 64))
              (size_found-recorded type src file) (t.1.1.0 file);
        of_mode = t.1.1.1.0;
        of_owner = t.1.1.1.1;
      },
      λ i. (
        i.has_source,
        (
          i.of_known_type,
          (
            λ file.
                subst (λ n. Has (found.followed dst) (λ sb. n ≡ sb.st_size % 2 ^ 64))
                  (sym (size_found-recorded type src file)) (i.of_size file),
            (i.of_mode, i.of_owner),
          ),
        ),
      ),
    )

  JudgedRes-Decides :
      (P Q : Type 0) (r : Res S Status)
      → (P ↔ Q)
      → JudgedRes os L found P r
      → Decides L.files Q found r
  JudgedRes-Decides P Q (done st w) same h =
      ((λ good. same.0 (h.0.0 good), λ q. h.0.1 (same.1 q)), h.1.0)
  JudgedRes-Decides P Q (fault x) same h = h

-- Under POSIX, for an owner whose numbers are `int`s and a callback that changes no file,
-- install_file_check with both names returns, with the status OK if and only if the destination is
-- installed: the source is there if a file is wanted, the destination is there, its type is one of
-- those known, its size is the source's if a file is wanted, its mode in the bits 0755 is the mode wanted, and its
-- owner and its group are those wanted. No file changes.
pub install_file_check-Decides :
    {S : Type 0} (os : Os S) (L : StatLaws os) (src dst : Bytes) (type : FileType)
    (mode : Permissions) (uid : UserNumber) (gid : GroupNumber) (w : World S)
    → IsInt uid
    → IsInt gid
    → HasIntOwner ((L.files w.os).followed dst)
    → IsQuiet L.files w.callback_info
    → Decides L.files (IsInstalled os (L.files w.os) src dst type mode uid gid) (L.files w.os) (
        install_file_check os (install_platform_posix os) (some src) mode type uid gid (some dst) w)
install_file_check-Decides os L src dst type mode uid gid w int_uid int_gid int_owner quiet =
    let found = L.files w.os in
    JudgedRes-Decides os L found (AllTests os L found src dst type mode uid gid) _ _
      (AllTests-IsInstalled os L found src dst type mode uid gid)
      (install_file_check-Judged os L found src dst type mode uid gid w int_uid int_gid int_owner
        (refl, quiet))
