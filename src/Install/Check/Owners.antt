-- ===== src/Install/Check/Owners.antt =====
-- The sizes, the owners and the messages of install_file_check of install-core.c, under POSIX.
use coreland_c_string.Base.{
  ℕ, ◌%◌, ◌^◌, ◌≡◌, ◌≢◌, refl, ap, ◌∙◌, inl, inr, true, false, Option, none, some, Bytes, ℤ, pos,
  arith, Bool-cases, ==_iff, Option-cases, if◌then◌else◌, snprintf_value, signed_decimal,
  to_unsigned, ltb, String, subst, negsuc, ◌==ℤ◌,
}
use coreland_c_string.Base.Digits.{IsInt, length-signed_decimal}
use coreland_c_string.Install.Header.{Status, FileType, UserNumber, GroupNumber}
use coreland_c_string.Install.World.{
  World, Exit, next, leave, stop, Proc, proc, Callback, call, pure, ◌>>=◌, ◌>>◌,
}
use coreland_c_string.Install.Os.{Os}
use coreland_c_string.Install.Posix.{
  install_platform_posix, iposix_error_message_current, iposix_gid_format, iposix_gid_compare,
  iposix_gid_free, iposix_uid_format, iposix_uid_compare, iposix_uid_free, iposix_file_size,
  iposix_file_ownership_get, read_size,
}
use coreland_c_string.Install.Status.{
  install_status_assign, format_uid, format_gid, announce_to, refuse_if,
}
use coreland_c_string.Install.Check.{check_size, check_ownership, is_file}
use coreland_c_string.Install.Check.Installed.{Files, Has, StatLaws, IsQuiet, HasIntOwner}
use coreland_c_string.Install.Check.Statements.{
  Sees, Tests, Judged, JudgedExit, stat_told, stat_Sees, check_size-Tests,
}

same_int : (a b : ℤ) → (a ==ℤ b) ≡ true → a ≡ b
same_int (pos a) (pos b) h = ap pos ((==_iff a b).0 h)
same_int (pos a) (negsuc b) h = cc
same_int (negsuc a) (pos b) h = cc
same_int (negsuc a) (negsuc b) h = ap negsuc ((==_iff a b).0 h)

differ_int : (a b : ℤ) → (a ==ℤ b) ≡ false → a ≢ b
differ_int (pos a) (pos b) h = ground arith
differ_int (pos a) (negsuc b) h = λ e. cc
differ_int (negsuc a) (pos b) h = λ e. cc
differ_int (negsuc a) (negsuc b) h = ground arith

module _ {S : Type 0} (os : Os S) (L : StatLaws os) (found : Files) where
  -- A statement that goes on in any case.
  abbrev pub Goes : {A : Type 0} → (A → Type 0) → Exit S Status A → Type 0
  Goes R (next a w) = R a × Sees os L found w
  Goes R (leave st w) = ⊥
  Goes R (stop x) = ⊥

  pub JudgedExit-go :
      {A : Type 0} (R : A → Type 0) (Q : Type 0) (e : Exit S Status A)
      (f : A → Proc S Status Status)
      → Goes R e
      → ((a : A) (w : World S) → R a → Sees os L found w → JudgedExit os L found Q (f a w))
      → JudgedExit os L found Q
          (elim e [ next a w ↦ f a w | leave r w ↦ leave r w | stop x ↦ stop x ])
  JudgedExit-go R Q (next a w) f h g = g a w h.0 h.1
  JudgedExit-go R Q (leave st w) f h g = absurd h
  JudgedExit-go R Q (stop x) f h g = absurd h

  -- A printed identifier has room in its buffer.
  terminates : (n : ℤ) → IsInt n → ltb (to_unsigned (snprintf_value (signed_decimal n))) 32 ≡ true
  unfolding snprintf_value
  terminates n small = ground (arith, length-signed_decimal n small)

  pub format_uid-Goes :
      (uid : UserNumber) (w : World S)
      → IsInt uid
      → Sees os L found w
      → Goes (λ _. Unit) (format_uid (install_platform_posix os) uid w)
  unfolding iposix_uid_format
  format_uid-Goes uid w small h = rw (terminates uid small) (tt, h)

  pub format_gid-Goes :
      (gid : GroupNumber) (w : World S)
      → IsInt gid
      → Sees os L found w
      → Goes (λ _. Unit) (format_gid (install_platform_posix os) gid w)
  unfolding iposix_gid_format
  format_gid-Goes gid w small h = rw (terminates gid small) (tt, h)

  pub announce_to-Goes :
      (callback : Option (Callback S)) (text : Bytes) (w : World S)
      → IsQuiet L.files callback
      → Sees os L found w
      → Goes (λ _. Unit) (announce_to callback (pure text) w)
  announce_to-Goes none text w quiet h = (tt, h)
  announce_to-Goes (some info) text w quiet h = (tt, (quiet _ _ _ ∙ h.0, h.1))

  -- The size of the source that is found, where a file is wanted.
  abbrev pub size_found : FileType → Bytes → ℤ × ℕ
  size_found type src = if is_file type then read_size os 0 (found.followed src) else (pos 1, 0)

  pub source_size-Goes :
      (type : FileType) (src : Bytes) (w : World S)
      → Sees os L found w
      → Goes
          (λ size. size ≡ size_found type src)
          ((if is_file type
              then call ((install_platform_posix os).file_size src 0)
              else pure (pos 1, 0))
            w)
  unfolding iposix_file_size
  source_size-Goes type src w h = elim (Bool-cases (is_file type)) [
    | inl file ↦ rw (file, stat_told os L found src w h) (refl, stat_Sees os L found src w h)
    | inr other ↦ rw other (refl, h)
  ]

  pub refuse_source-Tests :
      (type : FileType) (src : Bytes) (size : ℤ × ℕ) (text : String) (w : World S)
      → size ≡ size_found type src
      → Sees os L found w
      → Tests os L found
          (λ _. Unit)
          (is_file type ≡ true → Has (found.followed src) (λ sb. Unit))
          (refuse_if (install_platform_posix os) (size.0 ==ℤ pos 0) text w)
  unfolding install_status_assign iposix_error_message_current
  refuse_source-Tests type src size text w e h = elim (Bool-cases (is_file type)) [
    | inl file ↦ elim (Option-cases (found.followed src)) [
      | inl missing ↦ rw (e, file, missing) (refl, λ k. k refl, h)
      | inr (sb, there) ↦ rw (e, file, there) (tt, λ _. tt, h)
    ]
    | inr other ↦ rw (e, other) (tt, λ k. cc, h)
  ]

  -- The comparison of owners, which ends with the identifiers to free.
  abbrev pub JudgedOwner :
      Type 0
      → Exit S (Status × UserNumber × GroupNumber) (Status × UserNumber × GroupNumber)
      → Type 0
  JudgedOwner P (next r w) = Judged os L found P r.0 w
  JudgedOwner P (leave r w) = Judged os L found P r.0 w
  JudgedOwner P (stop x) = ⊥

  module _ (uid : UserNumber) (gid : GroupNumber) (uid_text gid_text dst : Bytes) (w : World S)
      (h : Sees os L found w) where
    check_ownership-Judged :
        HasIntOwner (found.followed dst)
        → JudgedOwner
            (Has (found.followed dst) (λ sb. (uid ≡ sb.st_uid) × (gid ≡ sb.st_gid)))
            (check_ownership os (install_platform_posix os) dst uid gid uid_text gid_text w)
    unfolding check_ownership iposix_file_ownership_get iposix_uid_compare iposix_gid_compare
        iposix_uid_format iposix_gid_format install_status_assign iposix_error_message_current
    check_ownership-Judged ints = elim (Option-cases (found.followed dst)) [
      | inl missing ↦
          rw (stat_told os L found dst w h, missing)
            ((λ good. cc, λ k. absurd k), stat_Sees os L found dst w h)
      | inr (sb, there) ↦
          let int_owner : HasIntOwner (some sb) = subst HasIntOwner there ints in
          rw (stat_told os L found dst w h, there)
            (elim (Bool-cases (uid ==ℤ sb.st_uid)) [
              | inl same ↦ elim (Bool-cases (gid ==ℤ sb.st_gid)) [
                | inl same' ↦
                    rw
                      (
                        JudgedOwner,
                        terminates sb.st_uid int_owner.0,
                        terminates sb.st_gid int_owner.1,
                        same,
                        same',
                      )
                      (
                        (
                          λ good. (same_int uid sb.st_uid same, same_int gid sb.st_gid same'),
                          λ k. refl,
                        ),
                        stat_Sees os L found dst w h,
                      )
                | inr differ ↦
                    rw
                      (
                        JudgedOwner,
                        terminates sb.st_uid int_owner.0,
                        terminates sb.st_gid int_owner.1,
                        same,
                        differ,
                      )
                      (
                        (λ good. cc, λ k. absurd (differ_int gid sb.st_gid differ k.1)),
                        stat_Sees os L found dst w h,
                      )
              ]
              | inr differ ↦
                  rw
                    (
                      JudgedOwner,
                      terminates sb.st_uid int_owner.0,
                      terminates sb.st_gid int_owner.1,
                      differ,
                    )
                    (
                      (λ good. cc, λ k. absurd (differ_int uid sb.st_uid differ k.0)),
                      stat_Sees os L found dst w h,
                    )
            ])
    ]

  -- The size wanted is the one that was found.
  pub check_found-Tests :
      (src dst : Bytes) (w : World S)
      → Sees os L found w
      → (type : FileType) (size : ℤ × ℕ) → size ≡ size_found type src
      → Tests os L found
          (λ _. Unit)
          (is_file type ≡ true
            → Has (found.followed dst) (λ sb. (size_found type src).1 ≡ sb.st_size % 2 ^ 64))
          (check_size os (install_platform_posix os) type dst size.1 w)
  check_found-Tests src dst w h type size e =
      rw e (check_size-Tests os L found dst w h type (size_found type src).1)

  -- The status that is left when the identifiers are freed.
  abbrev pub freed :
      Proc S (Status × UserNumber × GroupNumber) (Status × UserNumber × GroupNumber)
      → Proc S Status Status
  freed p = call (proc p) >>= λ result.
      call (iposix_uid_free os result.1) >> (call (iposix_gid_free os result.2) >> pure result.0)

  JudgedExit-freed :
      (P : Type 0)
      (p : Proc S (Status × UserNumber × GroupNumber) (Status × UserNumber × GroupNumber))
      (w : World S)
      → JudgedOwner P (p w)
      → JudgedExit os L found P (freed p w)
  unfolding iposix_uid_free iposix_gid_free
  JudgedExit-freed P p w h = ground arith

  pub freed_owner-Judged :
      (uid : UserNumber) (gid : GroupNumber) (uid_text gid_text dst : Bytes) (w : World S)
      → Sees os L found w
      → HasIntOwner (found.followed dst)
      → JudgedExit os L found
          (Has (found.followed dst) (λ sb. (uid ≡ sb.st_uid) × (gid ≡ sb.st_gid)))
          (freed (check_ownership os (install_platform_posix os) dst uid gid uid_text gid_text) w)
  freed_owner-Judged uid gid uid_text gid_text dst w h ints =
      JudgedExit-freed _
        (check_ownership os (install_platform_posix os) dst uid gid uid_text gid_text) w
        (check_ownership-Judged uid gid uid_text gid_text dst w h ints)
