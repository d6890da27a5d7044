-- ===== src/Install/Windows/Valid.antt =====
-- Which user and group ids install-win32.c hands out, and what its start leaves behind.
use coreland_c_string.Base.{
  ◌++◌, drop, [], ◌+◌, ltb, leb, true, false, ◌≡◌, ◌≢◌, refl, ap, ◌∙◌, ◌⊎◌, inl, inr, Bool-cases,
  subst, Option, none, some, Bytes, lit, ℤ, pos, ◌==ℤ◌, of_bool,
}
use coreland_c_string.Install.Header.{
  Status, ok, error, UserNumber, GroupNumber, Permissions, null_uid,
}
use coreland_c_string.Install.Platform.{Platform}
use coreland_c_string.Install.Status.{install_status_assign}
use coreland_c_string.Install.Windows.{iwin32_init}
use coreland_c_string.Install.Windows.Api.{Win32, Statics, unlen, buffer_size}
use coreland_c_string.Install.Windows.Files.{Core, iwin32_can_set_ownership}
use coreland_c_string.Install.Windows.Sids.{
  is_null, iwin32_get_sid, iwin32_user_name_current, iwin32_uid_lookup, iwin32_uid_compare,
}
use coreland_c_string.Install.World.{World, M, Res, Fault, done, fault, proc}

error_not_ok : error ≢ ok
error_not_ok e = cc

module _ {T : Type 0} where
  -- A lookup comes to an id that is there, or to none with nothing stored; it does not stop.
  abbrev pub IsFound : Res (Statics T) (ℤ × ℤ) → Type 0
  IsFound (done found w) =
      ((found.0 ≡ pos 1) × (is_null found.1 ≡ false)) ⊎ ((found.0 ≡ pos 0) × (found.1 ≡ null_uid))
  IsFound (fault x) = ⊥

  -- `install_status_assign` of install-core.c on any platform, and any function that copies.
  abbrev pub install_core :
      Platform (Statics T)
      → (Bytes → Bytes → UserNumber → GroupNumber → Permissions → M (Statics T) Status)
      → Core (Statics T)
  install_core platform copy = record {
    assign_error = λ text. install_status_assign platform error (some text);
    file_copy = copy;
  }

  -- The platform has started from a world: if the status is OK, ".exe" was written over the
  -- suffix of programs, and the administrator is known.
  abbrev pub IsStarted : World (Statics T) → Res (Statics T) Status → Type 0
  IsStarted before (done status w) =
      status.status ≡ ok
      → (w.exec_suffix ≡ lit ".exe" ++ drop 4 before.exec_suffix)
        × (is_null w.os.administrator_id ≡ false)
  IsStarted before (fault x) = Unit

  Res-cases :
      {A : Type 0} (r : Res (Statics T) A)
      → ((a : A) × (w : World (Statics T)) × (r ≡ done a w)) ⊎ ((x : Fault) × (r ≡ fault x))
  Res-cases (done a w) = inl (a, w, refl)
  Res-cases (fault x) = inr (x, refl)

  module _ (win : Win32 T) where
    -- A lookup of a user into a null id returns one exactly with an id that is not null, and
    -- leaves the id null where it returns zero; it fails no assertion.
    pub iwin32_uid_lookup-IsFound :
        (name : Bytes) (w : World (Statics T)) → IsFound (iwin32_uid_lookup win name null_uid w)
    unfolding iwin32_uid_lookup iwin32_get_sid
    iwin32_uid_lookup-IsFound name w =
        let found = win.malloc buffer_size w.os.api in
        elim (Bool-cases (is_null found.0)) [
          | inl empty ↦ rw (IsFound, empty) (inr (refl, refl))
          | inr there ↦ elim (Bool-cases (win.lookup_account_name name found.0 found.1).0) [
            | inl looked_up ↦ rw (IsFound, there, looked_up) (inl (refl, there))
            | inr unknown ↦ rw (IsFound, there, unknown) (inr (refl, refl))
          ]
        ]

    -- What a name that was returned leaves behind.
    abbrev IsFetched : Res (Statics T) (Option Bytes) → Type 0
    IsFetched (done none w) = Unit
    IsFetched (done (some name) w) = (w.os.user_name_fetched ≡ true) × (w.os.user_name ≡ name)
    IsFetched (fault x) = Unit

    current-IsFetched : (w : World (Statics T)) → IsFetched (iwin32_user_name_current win w)
    unfolding iwin32_user_name_current
    current-IsFetched w =
        let got = win.get_user_name w.os.user_name_size w.os.api in
        elim (Bool-cases w.os.user_name_fetched) [
          | inl fetched ↦ rw (IsFetched, fetched) (refl, refl)
          | inr new ↦ elim (Bool-cases got.0.0) [
            | inl gives ↦ elim (Bool-cases (ltb 0 got.0.2)) [
              | inl some_size ↦ elim (Bool-cases (leb got.0.2 (unlen + 1))) [
                | inl fits ↦ rw (IsFetched, new, gives, some_size, fits) (refl, refl)
                | inr long ↦ rw (IsFetched, new, gives, some_size, long) tt
              ]
              | inr no_size ↦ rw (IsFetched, new, gives, no_size) tt
            ]
            | inr fails ↦ rw (IsFetched, new, fails) tt
          ]
        ]

    fetched_again :
        (w : World (Statics T))
        → w.os.user_name_fetched ≡ true
        → iwin32_user_name_current win w ≡ done (some w.os.user_name) w
    unfolding iwin32_user_name_current
    fetched_again w h = rw h refl

    -- Once the user's name was fetched, it is returned again without a call of Windows and
    -- without a change of the state.
    user_name_again :
        (w w' : World (Statics T)) (name : Bytes)
        → iwin32_user_name_current win w ≡ done (some name) w'
        → iwin32_user_name_current win w' ≡ done (some name) w'
    user_name_again w w' name h =
        let (fetched, same) = subst IsFetched h (current-IsFetched w) in
        fetched_again w' fetched ∙ ap (λ n. done (some n) w') same

    module _ (platform : Platform (Statics T))
        (copy : Bytes → Bytes → UserNumber → GroupNumber → Permissions → M (Statics T) Status) where
      abbrev core : Core (Statics T)
      core = install_core platform copy

      init-IsStarted :
          (w : World (Statics T))
          → w.os.administrator_id ≡ null_uid
          → IsStarted w (iwin32_init win core w)
      unfolding iwin32_init iwin32_uid_lookup iwin32_get_sid install_status_assign
      init-IsStarted w unset =
          let found = win.malloc buffer_size w.os.api in
          let null = ap is_null unset in
          let known = win.lookup_account_name (lit "Administrator") found.0 found.1 in
          elim (Bool-cases (is_null found.0)) [
            | inl empty ↦
                elim (Res-cases (
                  platform.error_message_current
                    (record w { os = record w.os { api = found.1 } }))) [
                      | inl (text, w2, says) ↦
                          rw (IsStarted, null, empty, says) (λ is_ok. absurd (error_not_ok is_ok))
                      | inr (x, stops) ↦ rw (IsStarted, null, empty, stops) tt
                    ]
            | inr there ↦ elim (Bool-cases known.0) [
              | inl looked_up ↦ rw (IsStarted, null, there, looked_up) (λ _. (refl, there))
              | inr unknown ↦
                  elim (Res-cases (
                    platform.error_message_current
                      (record w { os = record w.os { api = known.1 } }))) [
                        | inl (text, w2, says) ↦
                            rw (IsStarted, null, there, unknown, says)
                              (λ is_ok. absurd (error_not_ok is_ok))
                        | inr (x, stops) ↦ rw (IsStarted, null, there, unknown, stops) tt
                      ]
            ]
          ]

      -- On Windows, with `install_status_assign` of install-core.c on any platform, from a suffix of
      -- programs that is empty and an administrator that is not known: where the start returns OK, programs end in ".exe" from there on, and the question whether a user that is
      -- not null can set ownership is answered by one comparison with the administrator, and fails
      -- no assertion.
      pub init-can_set_ownership :
          (w w' : World (Statics T)) (status : Status) (uid : UserNumber)
          → w.os.administrator_id ≡ null_uid
          → w.exec_suffix ≡ []
          → iwin32_init win core w ≡ done status w'
          → status.status ≡ ok
          → is_null uid ≡ false
          → (w'.exec_suffix ≡ lit ".exe")
            × (iwin32_can_set_ownership win uid w'
                ≡ done
                    (of_bool ((win.equal_sid uid w'.os.administrator_id w'.os.api).0 ==ℤ pos 1))
                    (record w' {
                      os = record w'.os {
                        api = (win.equal_sid uid w'.os.administrator_id w'.os.api).1;
                      };
                    }))
      unfolding iwin32_can_set_ownership iwin32_uid_compare lit
      init-can_set_ownership w w' status uid unset no_suffix started is_started valid =
          let (suffix, administrator) =
            subst (IsStarted w) started (init-IsStarted w unset) is_started in
          (
            suffix ∙ ap (λ old. lit ".exe" ++ drop 4 old) no_suffix,
            rw (valid) (rw (proc, administrator) refl),
          )
