-- ===== src/Install/Copy/Ways.antt =====
-- The ways through install_file_copy of install-core.c: only the one that meets no error returns OK.
use coreland_c_string.Base.{
  ℕ, ◌+◌, ◌≡◌, some, ◌∷◌, ◌++◌, Bytes, minus_one, ◌==ℤ◌, arith, Bool-cases, inl, inr, lit,
  snprintf_text, snprintf_value, is_negative,
}
use coreland_c_string.Install.Header.{
  Status, ok, error, Permissions, UserNumber, GroupNumber, max_pathlen,
}
use coreland_c_string.Install.World.{
  World, Res, done, fault, Exit, next, leave, stop, Proc, attempt, proc, ◌>>=◌,
}
use coreland_c_string.Install.Os.{Os}
use coreland_c_string.Install.Os.Stdio.{contains_self}
use coreland_c_string.Install.Posix.{
  install_platform_posix, iposix_error_message_current, iposix_uid_free, iposix_uid_current,
  iposix_uid_valid,
}
use coreland_c_string.Install.Status.{install_status_assign}
use coreland_c_string.Install.Copy.{copy_open, copy_error, end_copy, install_file_copy}
use coreland_c_string.Install.Copy.Streams.{opened_at}

module _ {S : Type 0} where
  -- A block that went on has come to `P`; a status returned is an error.
  abbrev pub Reaches : {A : Type 0} → (World S → Type 0) → Exit S Status A → Type 0
  Reaches P (next a v) = P v
  Reaches P (leave st v) = st.status ≡ error
  Reaches P (stop x) = Unit

  pub Reaches-bind :
      {A B : Type 0} (P Q : World S → Type 0) (e : Exit S Status A) (f : A → Proc S Status B)
      → Reaches P e
      → ((a : A) (v : World S) → P v → Reaches Q (f a v))
      → Reaches Q (elim e [ next a v ↦ f a v | leave r v ↦ leave r v | stop x ↦ stop x ])
  Reaches-bind P Q (next a v) f h g = g a v h
  Reaches-bind P Q (leave r v) f h g = h
  Reaches-bind P Q (stop x) f h g = tt

  -- A call that returns OK has come to `P`.
  abbrev pub OkIn : (World S → Type 0) → Res S Status → Type 0
  OkIn P (done st v) = st.status ≡ ok → P v
  OkIn P (fault x) = Unit

-- The name of the temporary file.
abbrev pub temporary : Bytes → Bytes
temporary dst = snprintf_text max_pathlen (dst ++ lit ".tmp")

-- The world when both files have been opened.
abbrev pub both_open : {S : Type 0} → Os S → World S → Bytes → Bytes → World S
both_open os w src dst = record w {
  os = opened_at os w src dst;
  next_stream = w.next_stream + 1 + 1;
  open_streams = (w.next_stream + 1) ∷ w.next_stream ∷ w.open_streams;
}

module _ {S : Type 0} (os : Os S) (P : World S → Type 0) where
  -- What follows either end of the block.
  end_copy-OkIn :
      (src dst : ℕ) (tmp : Bytes) (me : UserNumber) (e : Exit S Status (Unit {0})) (w : World S)
      → Reaches P e
      → OkIn P (
          proc
            (attempt {S = S} {R = Status} (λ _. e) >>= λ failure.
              end_copy os (install_platform_posix os) failure src (some dst) tmp me)
            w)
  unfolding install_status_assign iposix_error_message_current iposix_uid_free copy_error
  end_copy-OkIn src dst tmp me (next _ v) w h = λ _. h
  end_copy-OkIn src dst tmp me (leave st v) w h = ground arith
  end_copy-OkIn src dst tmp me (stop x) w h = tt

  module _ (writes fuel : ℕ) (src dst : Bytes) (uid : UserNumber) (gid : GroupNumber)
      (mode : Permissions) (w : World S) where
    pub install_file_copy-OkIn :
        Reaches P (
          copy_open os
            (install_platform_posix os)
            writes
            fuel
            w.next_stream
            (w.next_stream + 1)
            (temporary dst)
            dst
            (os.getuid w.os).0
            uid
            gid
            mode
            (both_open os w src dst))
        → OkIn P (
            install_file_copy os
              (install_platform_posix os)
              writes
              fuel
              (some src)
              (some dst)
              uid
              gid
              mode
              w)
    unfolding install_file_copy install_status_assign iposix_error_message_current iposix_uid_free
        iposix_uid_current iposix_uid_valid
    install_file_copy-OkIn reached =
        let n : ℕ = w.next_stream in
        let me : UserNumber = (os.getuid w.os).0 in
        let tmp : Bytes = temporary dst in
        elim (Bool-cases (me ==ℤ minus_one)) [
          | inl unknown ↦ rw (OkIn, unknown) tt
          | inr known ↦ elim (Bool-cases (is_negative (snprintf_value (dst ++ lit ".tmp")))) [
            | inl long ↦ rw (OkIn, known, long) (λ h. cc)
            | inr fits ↦ elim (Bool-cases (os.fopen n src (lit "rb") (os.getuid w.os).1).0) [
              | inr missing ↦ rw (OkIn, known, fits, missing) (λ h. cc)
              | inl found ↦
                  rw (OkIn, known, fits, found)
                    (elim (Bool-cases
                      (os.fopen (n + 1) tmp (lit "wb")
                        (os.fopen n src (lit "rb") (os.getuid w.os).1).1).0) [
                          | inl made ↦
                              rw (OkIn, made)
                                (end_copy-OkIn n (n + 1) tmp me
                                  (copy_open os (install_platform_posix os) writes fuel n (n + 1)
                                    tmp dst me uid gid mode (both_open os w src dst))
                                  (both_open os w src dst) reached)
                          | inr denied ↦ rw (OkIn, denied, contains_self n w.open_streams) (λ h. cc)
                        ])
            ]
          ]
        ]
