-- ===== src/Install/Copy/Streams.antt =====
-- The streams of install_file_copy of install-core.c: none stays open, and what its error path does
-- to a stream that was closed already.
use coreland_c_string.Base.{
  ℕ, ◌+◌, ◌<◌, ◌≡◌, refl, subst, true, false, some, List, ◌∷◌, ◌++◌, Bytes, length, arith,
  Bool-cases, inl, inr, ◌⊎◌, pos, minus_one, ◌==ℤ◌, lit, snprintf_text, snprintf_value, is_negative,
}
use coreland_c_string.Install.Header.{Status, Permissions, UserNumber, GroupNumber, max_pathlen}
use coreland_c_string.Install.World.{
  World, Fault, bad_stream, Res, done, fault, Exit, next, leave, stop, Proc, attempt, proc, ◌>>=◌,
  ◌>>◌,
}
use coreland_c_string.Install.Os.{Os}
use coreland_c_string.Install.Os.Stdio.{
  contains, remove, contains-remove, AllBelow, contains_of_AllBelow, contains_self, contains_later,
  remove_self, contains_tail, contains_next, contains_of_remove,
}
use coreland_c_string.Install.Posix.{
  install_platform_posix, iposix_error_message_current, iposix_supports_posix_modes,
  iposix_file_mode_set, iposix_can_set_ownership, iposix_uid_compare, iposix_file_ownership_set,
  iposix_uid_free, iposix_uid_current, iposix_uid_valid,
}
use coreland_c_string.Install.Copy.{
  copy_buf_size, copy_loop, set_attributes, finish_copy, copy_open, copy_error, end_copy, copy_to,
  install_file_copy,
}
use coreland_c_string.Install.Copy.Content.{StreamLaws, Ends, copy_loop-Ends}
use coreland_c_string.Install.Status.{install_status_assign}

module _ {S : Type 0} (os : Os S) where
  -- The attributes are set, or refused, with the streams as they were.
  set_attributes-Ends :
      (tmp : Bytes) (me uid : UserNumber) (gid : GroupNumber) (mode : Permissions) (w : World S)
      → (me ==ℤ minus_one) ≡ false
      → Ends w.open_streams
          (λ v. v.open_streams ≡ w.open_streams)
          (set_attributes os (install_platform_posix os) tmp me uid gid mode w)
  unfolding set_attributes install_status_assign iposix_error_message_current
      iposix_supports_posix_modes iposix_file_mode_set iposix_can_set_ownership iposix_uid_compare
      iposix_file_ownership_set
  set_attributes-Ends tmp me uid gid mode w valid = ground arith

  -- How the copy ends: with neither stream left, or at `ERR` with both or without `dst`.
  abbrev Finished : ℕ → ℕ → List ℕ → Exit S Status (Unit {0}) → Type 0
  Finished src dst gs (next _ v) = v.open_streams ≡ gs
  Finished src dst gs (leave st v) =
      (v.open_streams ≡ dst ∷ src ∷ gs) ⊎ (contains dst v.open_streams ≡ false)
  Finished src dst gs (stop x) = ⊥

  Finished-bind :
      {A : Type 0} {P : World S → Type 0} (src dst : ℕ) (gs : List ℕ) (e : Exit S Status A)
      (f : A → Proc S Status (Unit {0}))
      → Ends (dst ∷ src ∷ gs) P e
      → ((a : A) (v : World S) → P v → Finished src dst gs (f a v))
      → Finished src dst gs (elim e [ next a v ↦ f a v | leave r v ↦ leave r v | stop x ↦ stop x ])
  Finished-bind src dst gs (next a v) f h g = g a v h
  Finished-bind src dst gs (leave r v) f h g = inl h.1
  Finished-bind src dst gs (stop x) f h g = absurd h

  module _ (src dst : ℕ) (gs : List ℕ) (src_new : contains src gs ≡ false)
      (dst_new : contains dst (src ∷ gs) ≡ false) where
    finish_copy-Finished :
        (tmp path : Bytes) (w : World S)
        → w.open_streams ≡ dst ∷ src ∷ gs
        → Finished src dst gs (finish_copy os (install_platform_posix os) src dst tmp path w)
    unfolding finish_copy install_status_assign iposix_error_message_current
    finish_copy-Finished tmp path w held =
        let in_dst : contains dst w.open_streams ≡ true = rw held (contains_self dst (src ∷ gs)) in
        let out_dst : remove dst w.open_streams ≡ src ∷ gs =
          rw held (remove_self dst (src ∷ gs) dst_new) in
        elim (Bool-cases ((os.fclose dst w.os).0 ==ℤ minus_one)) [
          | inl bad ↦ rw (Finished, in_dst, bad) (inr (contains-remove dst w.open_streams))
          | inr good ↦
              rw (Finished, in_dst, good, out_dst, contains_self src gs, remove_self src gs src_new)
                (ground (arith, contains_tail dst src gs dst_new))
        ]

    finish_after_attributes :
        (tmp path : Bytes) (me uid : UserNumber) (gid : GroupNumber) (mode : Permissions)
        (w : World S)
        → (me ==ℤ minus_one) ≡ false
        → w.open_streams ≡ dst ∷ src ∷ gs
        → Finished src dst gs (
            (set_attributes os (install_platform_posix os) tmp me uid gid mode
                >> finish_copy os (install_platform_posix os) src dst tmp path)
              w)
    finish_after_attributes tmp path me uid gid mode w valid held =
        Finished-bind src dst gs
          (set_attributes os (install_platform_posix os) tmp me uid gid mode w)
          (λ _. finish_copy os (install_platform_posix os) src dst tmp path)
          (subst
            (λ hs.
              Ends hs (λ v. v.open_streams ≡ hs)
                (set_attributes os (install_platform_posix os) tmp me uid gid mode w))
            held (set_attributes-Ends tmp me uid gid mode w valid))
          (λ _ v same. finish_copy-Finished tmp path v same)

    -- From the copying loop to the renaming.
    copy_open-Finished :
        (writes fuel : ℕ) (L : StreamLaws os src dst) (tmp path : Bytes) (me uid : UserNumber)
        (gid : GroupNumber) (mode : Permissions) (w : World S)
        → copy_buf_size < writes
        → length (L.unread w.os) < fuel
        → (me ==ℤ minus_one) ≡ false
        → w.open_streams ≡ dst ∷ src ∷ gs
        → Finished src dst gs (
            copy_open os (install_platform_posix os) writes fuel src dst tmp path me uid gid mode w)
    unfolding copy_open install_status_assign iposix_error_message_current
    copy_open-Finished writes fuel L tmp path me uid gid mode w room enough valid held =
        Finished-bind src dst gs (copy_loop os (install_platform_posix os) writes fuel src dst w) _
          (copy_loop-Ends os src dst L (dst ∷ src ∷ gs)
            (contains_later src dst (src ∷ gs) (contains_self src gs))
            (contains_self dst (src ∷ gs)) writes fuel w room enough held)
          (λ _ v copied.
            let in_dst : contains dst v.open_streams ≡ true =
              rw (copied.2) (contains_self dst (src ∷ gs)) in
            elim (Bool-cases ((os.fflush dst v.os).0 ==ℤ pos 0)) [
              | inl good ↦
                  rw (Finished, in_dst, good)
                    (finish_after_attributes tmp path me uid gid mode
                      (record v { os = (os.fflush dst v.os).1 }) valid copied.2)
              | inr bad ↦ rw (Finished, in_dst, bad) (inl copied.2)
            ])

  -- The result of a copy as far as streams go: a return with the streams of the call, or the fault
  -- of using a stream that is closed.
  abbrev pub Balanced : List ℕ → Res S Status → Type 0
  Balanced gs (done st w) = w.open_streams ≡ gs
  Balanced gs (fault x) = x ≡ bad_stream

  abbrev BalancedEnd : List ℕ → Exit S Status Status → Type 0
  BalancedEnd gs (next st w) = w.open_streams ≡ gs
  BalancedEnd gs (leave st w) = w.open_streams ≡ gs
  BalancedEnd gs (stop x) = x ≡ bad_stream

  -- The label `ERR` closes both streams, or meets one that is closed.
  copy_error-Balanced :
      (src dst : ℕ) (gs : List ℕ) (st : Status) (tmp : Bytes) (me : UserNumber) (w : World S)
      → contains src gs ≡ false
      → contains dst (src ∷ gs) ≡ false
      → (w.open_streams ≡ dst ∷ src ∷ gs) ⊎ (contains dst w.open_streams ≡ false)
      → BalancedEnd gs (copy_error os (install_platform_posix os) st src (some dst) tmp me w)
  unfolding copy_error iposix_uid_free
  copy_error-Balanced src dst gs st tmp me w src_new dst_new (inl held) =
      let in_dst : contains dst w.open_streams ≡ true = rw held (contains_self dst (src ∷ gs)) in
      let out_dst : remove dst w.open_streams ≡ src ∷ gs =
        rw held (remove_self dst (src ∷ gs) dst_new) in
      rw (BalancedEnd, in_dst, out_dst, contains_self src gs, remove_self src gs src_new) refl
  copy_error-Balanced src dst gs st tmp me w src_new dst_new (inr closed) =
      rw (BalancedEnd, closed) refl

  end_copy-Balanced :
      (src dst : ℕ) (gs : List ℕ) (tmp : Bytes) (me : UserNumber) (e : Exit S Status (Unit {0}))
      (w : World S)
      → contains src gs ≡ false
      → contains dst (src ∷ gs) ≡ false
      → Finished src dst gs e
      → BalancedEnd gs (
          (attempt {S = S} {R = Status} (λ _. e) >>= λ failure.
          end_copy os (install_platform_posix os) failure src (some dst) tmp me)
            w)
  unfolding install_status_assign iposix_error_message_current iposix_uid_free
  end_copy-Balanced src dst gs tmp me (next _ v) w src_new dst_new h = h
  end_copy-Balanced src dst gs tmp me (leave st v) w src_new dst_new h =
      copy_error-Balanced src dst gs st tmp me v src_new dst_new h
  end_copy-Balanced src dst gs tmp me (stop x) w src_new dst_new h = absurd h

  to_Balanced :
      (gs : List ℕ) (p : Proc S Status Status) (w : World S)
      → BalancedEnd gs (p w)
      → Balanced gs (proc p w)
  to_Balanced gs p w h = ground arith

  -- Where the system stands once both files have been opened.
  abbrev pub opened_at : World S → Bytes → Bytes → S
  opened_at w src dst =
      (os.fopen (w.next_stream + 1) (snprintf_text max_pathlen (dst ++ lit ".tmp")) (lit "wb")
        (os.fopen w.next_stream src (lit "rb") (os.getuid w.os).1).1).1

  module _ (writes fuel : ℕ) (src dst : Bytes) (uid : UserNumber) (gid : GroupNumber)
      (mode : Permissions) (w : World S) where
    -- On a POSIX system, with the user known, fuel enough, streams that behave as the C library
    -- documents and the open streams numbered below the next one,
    -- install_file_copy returns with exactly the streams open that were open before, whatever
    -- call failed on the way, or it has used a stream that was closed; no other fault occurs.
    pub install_file_copy-Balanced :
        (L : StreamLaws os w.next_stream (w.next_stream + 1))
        → AllBelow w.next_stream w.open_streams
        → ((os.getuid w.os).0 ==ℤ minus_one) ≡ false
        → copy_buf_size < writes
        → length (L.unread (opened_at w src dst)) < fuel
        → Balanced w.open_streams (
            install_file_copy os
              (install_platform_posix os)
              writes
              fuel
              (some src)
              (some dst)
              uid
              gid
              mode
              w)
    unfolding install_file_copy install_status_assign iposix_error_message_current iposix_uid_free
        iposix_uid_current iposix_uid_valid
    install_file_copy-Balanced L below known room enough =
        let n : ℕ = w.next_stream in
        let gs : List ℕ = w.open_streams in
        let me : UserNumber = (os.getuid w.os).0 in
        let tmp : Bytes = snprintf_text max_pathlen (dst ++ lit ".tmp") in
        let src_new : contains n gs ≡ false = contains_of_AllBelow n n gs below (omega arith) in
        let dst_new : contains (n + 1) (n ∷ gs) ≡ false =
          contains_next n gs (contains_of_AllBelow n (n + 1) gs below (omega arith)) in
        elim (Bool-cases (is_negative (snprintf_value (dst ++ lit ".tmp")))) [
          | inl long ↦ rw (Balanced, known, long) refl
          | inr fits ↦ elim (Bool-cases (os.fopen n src (lit "rb") (os.getuid w.os).1).0) [
            | inr missing ↦ rw (Balanced, known, fits, missing) refl
            | inl found ↦
                rw (Balanced, known, fits, found)
                  (elim (Bool-cases
                    (os.fopen (n + 1) tmp (lit "wb")
                      (os.fopen n src (lit "rb") (os.getuid w.os).1).1).0) [
                        | inl made ↦
                            let v : World S = record w {
                              os = opened_at w src dst;
                              next_stream = n + 1 + 1;
                              open_streams = (n + 1) ∷ n ∷ gs;
                            } in
                            rw (Balanced, made)
                              (to_Balanced gs
                                (attempt (
                                    copy_to os (install_platform_posix os) writes fuel n
                                      (some (n + 1)) tmp dst me uid gid mode)
                                  >>= λ failure.
                                      end_copy os (install_platform_posix os) failure n
                                        (some (n + 1)) tmp me)
                                v
                                (end_copy-Balanced n (n + 1) gs tmp me
                                  (copy_open os (install_platform_posix os) writes fuel n (n + 1)
                                    tmp dst me uid gid mode v)
                                  v src_new dst_new
                                  (copy_open-Finished n (n + 1) gs src_new dst_new writes fuel L tmp
                                    dst me uid gid mode v room enough known refl)))
                        | inr denied ↦
                            rw (Balanced, denied, contains_self n gs, remove_self n gs src_new) refl
                      ])
          ]
        ]

  -- The block met the fault.
  abbrev pub Stops : Fault → Exit S Status Status → Type 0
  Stops f (next st w) = ⊥
  Stops f (leave st w) = ⊥
  Stops f (stop x) = x ≡ f

  -- An error leaves the destination closed.
  abbrev LeavesClosed : ℕ → Exit S Status (Unit {0}) → Type 0
  LeavesClosed dst (next _ v) = Unit
  LeavesClosed dst (leave st v) = contains dst v.open_streams ≡ false
  LeavesClosed dst (stop x) = Unit

  finish_copy-LeavesClosed :
      (src dst : ℕ) (tmp path : Bytes) (w : World S)
      → LeavesClosed dst (finish_copy os (install_platform_posix os) src dst tmp path w)
  unfolding finish_copy install_status_assign iposix_error_message_current
  finish_copy-LeavesClosed src dst tmp path w = ground (
    arith,
    contains-remove dst w.open_streams,
    contains_of_remove dst src (remove dst w.open_streams) (contains-remove dst w.open_streams),
  )

  -- On a POSIX system, whenever finish_copy fails, because closing the destination, closing the source or renaming
  -- failed, the error path closes the destination a second time: it uses a closed stream.
  pub finish_copy-error :
      (src dst : ℕ) (tmp path : Bytes) (me : UserNumber) (st : Status) (w v : World S)
      → finish_copy os (install_platform_posix os) src dst tmp path w ≡ leave st v
      → Stops bad_stream (copy_error os (install_platform_posix os) st src (some dst) tmp me v)
  unfolding copy_error
  finish_copy-error src dst tmp path me st w v failed =
      let closed : contains dst v.open_streams ≡ false =
        subst (LeavesClosed dst) failed (finish_copy-LeavesClosed src dst tmp path w) in
      rw (Stops, closed) refl
