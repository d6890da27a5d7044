-- ===== src/Install/Check/Statements.antt =====
-- The statements of install_file_check of install-core.c, under POSIX: what each of them tests.
use coreland_c_string.Base.{
  ℕ, ◌%◌, ◌^◌, ◌≡◌, ◌≢◌, refl, ap, ◌∙◌, inl, inr, ◌↔◌, true, false, none, Bytes, arith, Bool-cases,
  ==_iff, ◌==◌, Option-cases, bit_and, if◌then◌else◌,
}
use coreland_c_string.Install.Header.{Status, ok, error, FileType, Permissions}
use coreland_c_string.Install.World.{World, Exit, next, leave, stop, Proc}
use coreland_c_string.Install.Os.{Os}
use coreland_c_string.Install.Posix.{
  install_platform_posix, iposix_error_message_current, iposix_file_size, iposix_file_mode_get,
  iposix_supports_symlinks, iposix_supports_posix_modes,
}
use coreland_c_string.Install.FileTypes.{install_file_type, type_of_info}
use coreland_c_string.Install.FileTypes.Laws.{lookup-name_lookup}
use coreland_c_string.Install.Status.{install_status_assign}
use coreland_c_string.Install.Check.{check_type, check_size, check_mode, is_file, is_symlink}
use coreland_c_string.Install.Check.Installed.{Files, Has, StatLaws, IsQuiet}

differs : (a b : ℕ) → (a == b) ≡ false → a ≢ b
differs a b h = ground arith

module _ {S : Type 0} (os : Os S) (L : StatLaws os) (found : Files) where
  -- The files are as they were found, and the info callback leaves them so.
  abbrev pub Sees : World S → Type 0
  Sees w = (L.files w.os ≡ found) × IsQuiet L.files w.callback_info

  -- A statement goes on if and only if `P` holds, and returns an error otherwise.
  abbrev pub Tests : {A : Type 0} → (A → Type 0) → Type 0 → Exit S Status A → Type 0
  Tests R P (next a w) = R a × P × Sees w
  Tests R P (leave st w) = (st.status ≡ error) × ¬ P × Sees w
  Tests R P (stop x) = ⊥

  -- The status that is returned is OK if and only if `P` holds.
  abbrev pub Judged : Type 0 → Status → World S → Type 0
  Judged P st w = ((st.status ≡ ok) ↔ P) × Sees w

  abbrev pub JudgedExit : Type 0 → Exit S Status Status → Type 0
  JudgedExit P (next st w) = Judged P st w
  JudgedExit P (leave st w) = Judged P st w
  JudgedExit P (stop x) = ⊥

  Judged-next :
      (P Q : Type 0) (e : Exit S Status Status) → P → JudgedExit Q e → JudgedExit (P × Q) e
  Judged-next P Q (next st w) p h = ((λ good. (p, h.0.0 good), λ both. h.0.1 both.1), h.1)
  Judged-next P Q (leave st w) p h = ((λ good. (p, h.0.0 good), λ both. h.0.1 both.1), h.1)
  Judged-next P Q (stop x) p h = h

  -- A statement and what follows it.
  pub JudgedExit-bind :
      {A : Type 0} (R : A → Type 0) (P Q : Type 0) (e : Exit S Status A)
      (f : A → Proc S Status Status)
      → Tests R P e
      → ((a : A) (w : World S) → R a → P → Sees w → JudgedExit Q (f a w))
      → JudgedExit (P × Q) (elim e [ next a w ↦ f a w | leave r w ↦ leave r w | stop x ↦ stop x ])
  JudgedExit-bind R P Q (next a w) f h g = Judged-next P Q (f a w) h.1 (g a w h.0 h.1 h.2)
  JudgedExit-bind R P Q (leave st w) f h g = ((λ good. cc, λ both. absurd (h.1 both.0)), h.2)
  JudgedExit-bind R P Q (stop x) f h g = absurd h

  -- What the calls of the system tell, and that they leave the files.
  module _ (path : Bytes) (w : World S) (h : Sees w) where
    pub stat_told : (os.stat path w.os).0 ≡ found.followed path
    stat_told = L.stat_tells path w.os ∙ ap (λ (f : Files). f.followed path) h.0

    pub stat_Sees : Sees (record w { os = (os.stat path w.os).1 })
    stat_Sees = (L.stat_keeps path w.os ∙ h.0, h.1)

    lstat_told : (os.lstat path w.os).0 ≡ found.unfollowed path
    lstat_told = L.lstat_tells path w.os ∙ ap (λ (f : Files). f.unfollowed path) h.0

    lstat_Sees : Sees (record w { os = (os.lstat path w.os).1 })
    lstat_Sees = (L.lstat_keeps path w.os ∙ h.0, h.1)

  module _ (dst : Bytes) (w : World S) (h : Sees w) where
    pub check_type-Tests :
        (type : FileType) (name : Bytes)
        → Tests
            (λ _. Unit)
            (type_of_info os (if is_symlink type then found.unfollowed dst else found.followed dst)
              ≢ none)
            (check_type os (install_platform_posix os) type name dst w)
    unfolding check_type install_file_type iposix_supports_symlinks install_status_assign
        iposix_error_message_current
    check_type-Tests type name = elim (Bool-cases (is_symlink type)) [
      | inl link ↦ elim (Option-cases (type_of_info os (found.unfollowed dst))) [
        | inl e ↦ rw (link, lstat_told dst w h, e) (refl, λ k. k refl, lstat_Sees dst w h)
        | inr (t, e) ↦
            rw (link, lstat_told dst w h, e, (lookup-name_lookup t).1)
              (tt, λ k. cc, lstat_Sees dst w h)
      ]
      | inr other ↦ elim (Option-cases (type_of_info os (found.followed dst))) [
        | inl e ↦ rw (other, stat_told dst w h, e) (refl, λ k. k refl, stat_Sees dst w h)
        | inr (t, e) ↦
            rw (other, stat_told dst w h, e, (lookup-name_lookup t).1)
              (tt, λ k. cc, stat_Sees dst w h)
      ]
    ]

    pub check_size-Tests :
        (type : FileType) (size : ℕ)
        → Tests
            (λ _. Unit)
            (is_file type ≡ true → Has (found.followed dst) (λ sb. size ≡ sb.st_size % 2 ^ 64))
            (check_size os (install_platform_posix os) type dst size w)
    unfolding check_size iposix_file_size install_status_assign iposix_error_message_current
    check_size-Tests type size = elim (Bool-cases (is_file type)) [
      | inl file ↦ elim (Option-cases (found.followed dst)) [
        | inl e ↦ rw (file, stat_told dst w h, e) (refl, λ k. k refl, stat_Sees dst w h)
        | inr (sb, e) ↦ elim (Bool-cases (size == sb.st_size % 2 ^ 64)) [
          | inl same ↦
              rw (file, stat_told dst w h, e, same)
                (tt, λ _. (==_iff size (sb.st_size % 2 ^ 64)).0 same, stat_Sees dst w h)
          | inr differ ↦
              rw (file, stat_told dst w h, e, differ)
                (refl, λ k. differs size _ differ (k refl), stat_Sees dst w h)
        ]
      ]
      | inr other ↦ rw other (tt, λ k. cc, h)
    ]

    pub check_mode-Tests :
        (mode : Permissions)
        → Tests
            (λ _. Unit)
            (Has (found.followed dst) (λ sb. bit_and sb.st_mode 0o755 ≡ mode))
            (check_mode os (install_platform_posix os) dst mode w)
    unfolding check_mode iposix_file_mode_get iposix_supports_posix_modes install_status_assign
        iposix_error_message_current
    check_mode-Tests mode = elim (Option-cases (found.followed dst)) [
      | inl e ↦ rw (stat_told dst w h, e) (refl, λ k. k, stat_Sees dst w h)
      | inr (sb, e) ↦ elim (Bool-cases (bit_and sb.st_mode 0o755 == mode)) [
        | inl same ↦
            rw (stat_told dst w h, e, same)
              (tt, (==_iff (bit_and sb.st_mode 0o755) mode).0 same, stat_Sees dst w h)
        | inr differ ↦
            rw (stat_told dst w h, e, differ) (refl, differs _ mode differ, stat_Sees dst w h)
      ]
    ]
