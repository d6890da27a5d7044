-- ===== src/Install/Copy/Whole.antt =====
-- What install_file_copy of install-core.c has written when it returns OK.
use coreland_c_string.Base.{
  ℕ, ◌+◌, ◌<◌, ◌≡◌, refl, subst, ◌∙◌, true, false, some, List, ◌∷◌, ◌++◌, Bytes, length, arith,
  Bool-cases, inl, inr, ℤ, pos, minus_one, ◌==ℤ◌,
}
use coreland_c_string.Install.Header.{Status, Permissions, UserNumber, GroupNumber}
use coreland_c_string.Install.World.{World, Res, Exit, next, leave, stop, Proc}
use coreland_c_string.Install.Os.{Os}
use coreland_c_string.Install.Os.Stdio.{contains, AllBelow, contains_self, contains_later}
use coreland_c_string.Install.Posix.{
  install_platform_posix, iposix_error_message_current, iposix_supports_posix_modes,
  iposix_file_mode_set, iposix_can_set_ownership, iposix_uid_compare, iposix_file_ownership_set,
}
use coreland_c_string.Install.Copy.{
  copy_buf_size, copy_loop, set_attributes, finish_copy, copy_open, install_file_copy,
}
use coreland_c_string.Install.Copy.Content.{StreamLaws, Ends, copy_loop-Ends}
use coreland_c_string.Install.Copy.Ways.{
  Reaches, Reaches-bind, OkIn, temporary, both_open, install_file_copy-OkIn,
}
use coreland_c_string.Install.Copy.Streams.{opened_at, Balanced, install_file_copy-Balanced}
use coreland_c_string.Install.Status.{install_status_assign}

-- The calls behind the copying loop leave alone what the destination was given.
pub record KeepsSunk {S : Type 0} (os : Os S) (src dst : ℕ) (L : StreamLaws os src dst)
    : Type 0 where
  pub fflush : (s : S) → L.sunk (os.fflush dst s).1 ≡ L.sunk s
  pub chmod : (path : Bytes) (mode : ℕ) (s : S) → L.sunk (os.chmod path mode s).1 ≡ L.sunk s
  pub chown : (path : Bytes) (uid gid : ℤ) (s : S) → L.sunk (os.chown path uid gid s).1 ≡ L.sunk s
  pub fclose : (f : ℕ) (s : S) → L.sunk (os.fclose f s).1 ≡ L.sunk s
  pub rename : (from to : Bytes) (s : S) → L.sunk (os.rename from to s).1 ≡ L.sunk s

-- A call that returns OK has given the destination the bytes.
abbrev pub Copies : {S : Type 0} → (S → Bytes) → Bytes → Res S Status → Type 0
Copies sunk bytes = OkIn (λ w. sunk w.os ≡ bytes)

module _ {S : Type 0} (os : Os S) (src dst : ℕ) (L : StreamLaws os src dst)
    (K : KeepsSunk os src dst L) where
  -- The destination was given the bytes.
  abbrev Has : Bytes → World S → Type 0
  Has bytes v = L.sunk v.os ≡ bytes

  Whole-bind :
      {A B : Type 0} {P : World S → Type 0} (gs : List ℕ) (bytes : Bytes) (e : Exit S Status A)
      (f : A → Proc S Status B)
      → Ends gs P e
      → ((a : A) (v : World S) → P v → Reaches (Has bytes) (f a v))
      → Reaches (Has bytes) (elim e [ next a v ↦ f a v | leave r v ↦ leave r v | stop x ↦ stop x ])
  Whole-bind gs bytes (next a v) f h g = g a v h
  Whole-bind gs bytes (leave r v) f h g = h.0
  Whole-bind gs bytes (stop x) f h g = tt

  set_attributes-Whole :
      (tmp : Bytes) (me uid : UserNumber) (gid : GroupNumber) (mode : Permissions) (w : World S)
      → Reaches
          (Has (L.sunk w.os))
          (set_attributes os (install_platform_posix os) tmp me uid gid mode w)
  unfolding set_attributes install_status_assign iposix_error_message_current
      iposix_supports_posix_modes iposix_file_mode_set iposix_can_set_ownership iposix_uid_compare
      iposix_file_ownership_set
  set_attributes-Whole tmp me uid gid mode w =
      ground (arith, K.chmod tmp mode w.os, K.chown tmp uid gid (os.chmod tmp mode w.os).1)

  finish_copy-Whole :
      (tmp path : Bytes) (w : World S)
      → Reaches (Has (L.sunk w.os)) (finish_copy os (install_platform_posix os) src dst tmp path w)
  unfolding finish_copy install_status_assign iposix_error_message_current
  finish_copy-Whole tmp path w =
      let a : S = (os.fclose dst w.os).1 in
      let b : S = (os.fclose src a).1 in
      ground (arith, K.fclose dst w.os, K.fclose src a, K.rename tmp path b)

  -- From the copying loop to the renaming.
  copy_open-Whole :
      (writes fuel : ℕ) (gs : List ℕ) (tmp path : Bytes) (me uid : UserNumber) (gid : GroupNumber)
      (mode : Permissions) (w : World S)
      → copy_buf_size < writes
      → length (L.unread w.os) < fuel
      → w.open_streams ≡ dst ∷ src ∷ gs
      → Reaches
          (Has (L.sunk w.os ++ L.unread w.os))
          (copy_open os (install_platform_posix os) writes fuel src dst tmp path me uid gid mode w)
  unfolding copy_open install_status_assign iposix_error_message_current
  copy_open-Whole writes fuel gs tmp path me uid gid mode w room enough held =
      let bytes : Bytes = L.sunk w.os ++ L.unread w.os in
      Whole-bind (dst ∷ src ∷ gs) bytes
        (copy_loop os (install_platform_posix os) writes fuel src dst w) _
        (copy_loop-Ends os src dst L (dst ∷ src ∷ gs)
          (contains_later src dst (src ∷ gs) (contains_self src gs)) (contains_self dst (src ∷ gs))
          writes fuel w room enough held)
        (λ _ v copied.
          let in_dst : contains dst v.open_streams ≡ true =
            rw (copied.2) (contains_self dst (src ∷ gs)) in
          let u : World S = record v { os = (os.fflush dst v.os).1 } in
          let flushed : L.sunk u.os ≡ bytes = K.fflush v.os ∙ copied.0 in
          elim (Bool-cases ((os.fflush dst v.os).0 ==ℤ pos 0)) [
            | inl good ↦
                rw (Reaches, in_dst, good)
                  (Reaches-bind (Has bytes) (Has bytes)
                    (set_attributes os (install_platform_posix os) tmp me uid gid mode u)
                    (λ _. finish_copy os (install_platform_posix os) src dst tmp path)
                    (subst
                      (λ b.
                        Reaches (Has b)
                          (set_attributes os (install_platform_posix os) tmp me uid gid mode u))
                      flushed (set_attributes-Whole tmp me uid gid mode u))
                    (λ _ x same.
                      subst
                        (λ b.
                          Reaches (Has b)
                            (finish_copy os (install_platform_posix os) src dst tmp path x))
                        same (finish_copy-Whole tmp path x)))
            | inr bad ↦ rw (Reaches, in_dst, bad) refl
          ])

module _ {S : Type 0} (os : Os S) (writes fuel : ℕ) (src dst : Bytes) (uid : UserNumber)
    (gid : GroupNumber) (mode : Permissions) (w : World S) where
  install_file_copy-Copies :
      (L : StreamLaws os w.next_stream (w.next_stream + 1))
      → KeepsSunk os w.next_stream (w.next_stream + 1) L
      → copy_buf_size < writes
      → length (L.unread (opened_at os w src dst)) < fuel
      → Copies L.sunk (L.sunk (opened_at os w src dst) ++ L.unread (opened_at os w src dst)) (
          install_file_copy os
            (install_platform_posix os)
            writes
            fuel
            (some src)
            (some dst)
            uid
            gid
            mode
            w)
  install_file_copy-Copies L K room enough =
      let v = both_open os w src dst in
      install_file_copy-OkIn os (λ u. L.sunk u.os ≡ L.sunk v.os ++ L.unread v.os) writes fuel src
        dst uid gid mode w
        (copy_open-Whole os w.next_stream (w.next_stream + 1) L K writes fuel w.open_streams
          (temporary dst) dst (os.getuid w.os).0 uid gid mode v room enough refl)

  -- On a POSIX system, with the user known, streams that behave as the C library documents, calls
  -- behind the copying loop that leave the written bytes alone, fuel enough and the open streams
  -- numbered below the next one: install_file_copy returns, with exactly the streams open that were
  -- open before, or it has used a stream that was closed; and if it returns OK, the temporary file
  -- was given exactly what the source had when both files had been opened.
  pub install_file_copy-Whole :
      (L : StreamLaws os w.next_stream (w.next_stream + 1))
      → KeepsSunk os w.next_stream (w.next_stream + 1) L
      → AllBelow w.next_stream w.open_streams
      → ((os.getuid w.os).0 ==ℤ minus_one) ≡ false
      → copy_buf_size < writes
      → length (L.unread (opened_at os w src dst)) < fuel
      → let result =
          install_file_copy os
            (install_platform_posix os)
            writes
            fuel
            (some src)
            (some dst)
            uid
            gid
            mode
            w in
        Balanced os w.open_streams result
        × Copies L.sunk
            (L.sunk (opened_at os w src dst) ++ L.unread (opened_at os w src dst))
            result
  install_file_copy-Whole L K below known room enough = (
    install_file_copy-Balanced os writes fuel src dst uid gid mode w L below known room enough,
    install_file_copy-Copies L K room enough,
  )
