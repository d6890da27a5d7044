-- ===== src/Install/Copy/Placed.antt =====
-- The file that install_file_copy of install-core.c leaves under the name of the destination.
use coreland_c_string.Base.{
  ℕ, ◌+◌, ◌<◌, ◌≡◌, refl, ◌∙◌, Bool, true, Option, some, List, ◌∷◌, [], ◌++◌, Bytes, ℤ, pos, ◌==ℤ◌,
  arith, bit_and, length, Bool-cases, inl, inr, if◌then◌else◌,
}
use coreland_c_string.Install.Header.{Status, Permissions, UserNumber, GroupNumber}
use coreland_c_string.Install.World.{World, Exit, next, leave, stop}
use coreland_c_string.Install.World.Keeps.{EndsIn}
use coreland_c_string.Install.Os.{Os}
use coreland_c_string.Install.Os.Stdio.{contains, contains_self, contains_later}
use coreland_c_string.Install.Posix.{
  install_platform_posix, iposix_error_message_current, iposix_supports_posix_modes,
  iposix_file_mode_set, iposix_can_set_ownership, iposix_uid_compare, iposix_file_ownership_set,
}
use coreland_c_string.Install.Status.{install_status_assign}
use coreland_c_string.Install.Check.Installed.{StatLaws}
use coreland_c_string.Install.Copy.{
  copy_buf_size, copy_loop, set_attributes, finish_copy, copy_open, install_file_copy,
}
use coreland_c_string.Install.Copy.Content.{StreamLaws, Ends, copy_loop-Ends}
use coreland_c_string.Install.Copy.Streams.{opened_at}
use coreland_c_string.Install.Copy.Ways.{
  Reaches, Reaches-bind, OkIn, temporary, both_open, install_file_copy-OkIn,
}
use coreland_c_string.Install.Copy.Whole.{KeepsSunk}
use coreland_c_string.Install.Copy.Temporary.{
  kind, owner, perms, size, told, FileLaws, IsTemporary, copy_loop-Keeps,
}

-- The owner that a file is given: its own one if the user is that of the process.
abbrev pub given : UserNumber → UserNumber → GroupNumber → Option (ℤ × ℤ) → Option (ℤ × ℤ)
given me uid gid old = if me ==ℤ uid then old else some (uid, gid)

-- The file `to` is there, with a size, a kind, a mode in the bits 0755 and an owner.
abbrev pub IsPlaced :
    {S : Type 0} (os : Os S)
    → StatLaws os
    → Bytes
    → ℕ
    → Option Bool
    → ℕ
    → Option (ℤ × ℤ)
    → World S
    → Type 0
IsPlaced os L to n k m o w =
    (size (told L to w.os) ≡ some n)
    × (kind os (told L to w.os) ≡ k)
    × (perms (told L to w.os) ≡ some m)
    × (owner (told L to w.os) ≡ o)

module _ {S : Type 0} (os : Os S) (L : StatLaws os) (src dst : ℕ) (C : StreamLaws os src dst)
    (K : KeepsSunk os src dst C) (tmp to : Bytes) (F : FileLaws os L src dst C tmp to) where
  module _ (bytes : Bytes) (k : Option Bool) (o : Option (ℤ × ℤ)) (mode : Permissions)
      (me uid : UserNumber) (gid : GroupNumber) where
    -- The temporary file is written, and is as it was opened otherwise.
    abbrev IsWritten : World S → Type 0
    IsWritten w = (C.sunk w.os ≡ bytes) × IsTemporary os L src dst C tmp to F k o w

    -- It has its attributes.
    abbrev IsAttributed : World S → Type 0
    IsAttributed w =
        (C.sunk w.os ≡ bytes)
        × (kind os (told L tmp w.os) ≡ k)
        × (perms (told L tmp w.os) ≡ some (bit_and mode 0o755))
        × (owner (told L tmp w.os) ≡ given me uid gid o)

    -- It has its name.
    abbrev HasName : World S → Type 0
    HasName = IsPlaced os L to (length bytes) k (bit_and mode 0o755) (given me uid gid o)

    set_attributes-Reaches :
        (w : World S)
        → IsWritten w
        → Reaches IsAttributed (set_attributes os (install_platform_posix os) tmp me uid gid mode w)
    unfolding set_attributes install_status_assign iposix_error_message_current
        iposix_supports_posix_modes iposix_file_mode_set iposix_can_set_ownership iposix_uid_compare
        iposix_file_ownership_set
    set_attributes-Reaches w h =
        let s : S = (os.chmod tmp mode w.os).1 in
        ground (
          arith,
          K.chmod tmp mode w.os,
          K.chown tmp uid gid s,
          F.chmod_kind mode w.os,
          F.chmod_owner mode w.os,
          F.chmod_sets mode w.os,
          F.chown_kind uid gid s,
          F.chown_perms uid gid s,
          F.chown_sets uid gid s,
        )

    finish_copy-Reaches :
        (w : World S)
        → IsAttributed w
        → Reaches HasName (finish_copy os (install_platform_posix os) src dst tmp to w)
    unfolding finish_copy install_status_assign iposix_error_message_current
    finish_copy-Reaches w h =
        let a : S = (os.fclose dst w.os).1 in
        let b : S = (os.fclose src a).1 in
        ground (
          arith,
          F.fclose_kind w.os,
          F.fclose_owner w.os,
          F.fclose_perms w.os,
          F.fclose_size w.os,
          F.fclose_source a,
          F.rename_tells b,
        )

    -- What the copying loop leaves, if it goes on.
    copy_loop-Reaches :
        (e : Exit S Status (Unit {0})) (gs : List ℕ) (w : World S)
        → Ends gs
            (λ v.
              (C.sunk v.os ≡ C.sunk w.os ++ C.unread w.os)
              × (C.unread v.os ≡ [])
              × (v.open_streams ≡ gs))
            e
        → EndsIn (IsTemporary os L src dst C tmp to F k o) e
        → C.sunk w.os ++ C.unread w.os ≡ bytes
        → Reaches (λ v. IsWritten v × (v.open_streams ≡ gs)) e
    copy_loop-Reaches (next a v) gs w c t all = ((c.0 ∙ all, t), c.2)
    copy_loop-Reaches (leave st v) gs w c t all = c.0
    copy_loop-Reaches (stop x) gs w c t all = tt

    copy_open-Reaches :
        (writes fuel : ℕ) (gs : List ℕ) (w : World S)
        → copy_buf_size < writes
        → length (C.unread w.os) < fuel
        → w.open_streams ≡ dst ∷ src ∷ gs
        → C.sunk w.os ++ C.unread w.os ≡ bytes
        → IsTemporary os L src dst C tmp to F k o w
        → Reaches HasName
            (copy_open os (install_platform_posix os) writes fuel src dst tmp to me uid gid mode w)
    unfolding copy_open install_status_assign iposix_error_message_current
    copy_open-Reaches writes fuel gs w room enough held all temporary =
        Reaches-bind (λ v. IsWritten v × (v.open_streams ≡ dst ∷ src ∷ gs)) HasName
          (copy_loop os (install_platform_posix os) writes fuel src dst w) _
          (copy_loop-Reaches (copy_loop os (install_platform_posix os) writes fuel src dst w)
            (dst ∷ src ∷ gs) w
            (copy_loop-Ends os src dst C (dst ∷ src ∷ gs)
              (contains_later src dst (src ∷ gs) (contains_self src gs))
              (contains_self dst (src ∷ gs)) writes fuel w room enough held)
            ((copy_loop-Keeps os L src dst C tmp to F k o writes fuel).at w temporary) all)
          λ _ v copied.
            let in_dst : contains dst v.open_streams ≡ true =
              rw (copied.1) (contains_self dst (src ∷ gs)) in
            let u : World S = record v { os = (os.fflush dst v.os).1 } in
            let flushed : IsWritten u = (
              K.fflush v.os ∙ copied.0.0,
              (F.fflush_kind v.os ∙ copied.0.1.0, F.fflush_owner v.os ∙ copied.0.1.1),
            ) in
            elim (Bool-cases ((os.fflush dst v.os).0 ==ℤ pos 0)) [
              | inl good ↦
                  rw (Reaches, in_dst, good)
                    (Reaches-bind IsAttributed HasName
                      (set_attributes os (install_platform_posix os) tmp me uid gid mode u)
                      (λ _. finish_copy os (install_platform_posix os) src dst tmp to)
                      (set_attributes-Reaches u flushed) (λ _ x h. finish_copy-Reaches x h))
              | inr bad ↦ rw (Reaches, in_dst, bad) refl
            ]

module _ {S : Type 0} (os : Os S) (L : StatLaws os) (writes fuel : ℕ) (src dst : Bytes)
    (uid : UserNumber) (gid : GroupNumber) (mode : Permissions) (w : World S) where
  -- The state behind the opening of both files.
  abbrev opened : S
  opened = opened_at os w src dst

  -- A call that returns OK has placed the file that was opened, with what it was given.
  pub install_file_copy-Places :
      (C : StreamLaws os w.next_stream (w.next_stream + 1))
      → (K : KeepsSunk os w.next_stream (w.next_stream + 1) C)
      → (F : FileLaws os L w.next_stream (w.next_stream + 1) C (temporary dst) dst)
      → copy_buf_size < writes
      → length (C.unread opened) < fuel
      → OkIn
          (IsPlaced os L dst
            (length (C.sunk opened ++ C.unread opened))
            (kind os (told L (temporary dst) opened))
            (bit_and mode 0o755)
            (given (os.getuid w.os).0 uid gid (owner (told L (temporary dst) opened))))
          (install_file_copy os
            (install_platform_posix os)
            writes
            fuel
            (some src)
            (some dst)
            uid
            gid
            mode
            w)
  install_file_copy-Places C K F room enough =
      install_file_copy-OkIn os _ writes fuel src dst uid gid mode w (
        copy_open-Reaches os L w.next_stream (w.next_stream + 1) C K (temporary dst) dst F
          (C.sunk opened ++ C.unread opened) (kind os (told L (temporary dst) opened))
          (owner (told L (temporary dst) opened)) mode (os.getuid w.os).0 uid gid writes fuel
          w.open_streams (both_open os w src dst) room enough refl refl (refl, refl))
