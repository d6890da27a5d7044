-- ===== src/Install/Copy/Content.antt =====
-- The loops of install_file_copy of install-core.c copy the whole source, given what the C library
-- documents of its streams.
use coreland_c_string.Base.{
  ℕ, zero, suc, ◌<◌, ◌≤◌, ◌==◌, ◌≡◌, refl, sym, ap, ◌∙◌, true, false, List, [], ◌∷◌, ◌++◌,
  append_assoc, append-nil, Bytes, length, take, drop, take-append-drop, length-drop, length-append,
  arith, Bool-cases, ==_iff, inl, inr, ◌⊎◌,
}
use coreland_c_string.Install.Header.{Status, error}
use coreland_c_string.Install.World.{World, Exit, next, leave, stop, Proc}
use coreland_c_string.Install.Os.{Os}
use coreland_c_string.Install.Os.Stdio.{contains}
use coreland_c_string.Install.Posix.{install_platform_posix, iposix_error_message_current}
use coreland_c_string.Install.Copy.{write_round, write_block, copy_round, copy_loop, copy_buf_size}
use coreland_c_string.Install.Status.{install_status_assign}

-- What the C library documents of a stream `src` that is read and a stream `dst` that is written,
-- on different files: `unread` is what `src` has left and `sunk` what `dst` was given.
pub record StreamLaws {S : Type 0} (os : Os S) (src dst : ℕ) : Type 0 where
  pub unread : S → Bytes
  pub sunk : S → Bytes
  pub fread_takes : (n : ℕ) (s : S) → unread s ≡ (os.fread src n s).0 ++ unread (os.fread src n s).1
  pub fread_bound : (n : ℕ) (s : S) → length (os.fread src n s).0 ≤ n
  pub fread_keeps : (n : ℕ) (s : S) → sunk (os.fread src n s).1 ≡ sunk s
  -- a read of nothing has met the end of the file or an error
  pub fread_ends :
      (n : ℕ) (s : S)
      → length (os.fread src (suc n) s).0 ≡ 0
      → let t = (os.fread src (suc n) s).1 in
        ((os.feof src t).0 ≡ true) ⊎ ((os.ferror src t).0 ≡ true)
  pub feof_means : (s : S) → (os.feof src s).0 ≡ true → unread s ≡ []
  pub fwrite_gives :
      (bytes : Bytes) (s : S)
      → sunk (os.fwrite dst bytes s).1 ≡ sunk s ++ take (os.fwrite dst bytes s).0 bytes
  pub fwrite_keeps : (bytes : Bytes) (s : S) → unread (os.fwrite dst bytes s).1 ≡ unread s
  -- a write of some bytes that writes none has met an error, and the end of the file is not met by writing
  pub fwrite_fails :
      (b : ℕ) (bytes : Bytes) (s : S)
      → (os.fwrite dst (b ∷ bytes) s).0 ≡ 0
      → let t = (os.fwrite dst (b ∷ bytes) s).1 in
        ((os.feof dst t).0 ≡ false) × ((os.ferror dst (os.feof dst t).1).0 ≡ true)
  pub feof_same : (s : S) → (os.feof src s).1 ≡ s

eq-nil : (x : Bytes) → (length x == 0) ≡ true → x ≡ []
eq-nil [] h = refl
eq-nil (c ∷ cs) h = absurd (ground arith)

-- The block came to its end in a world as described, or returned an error status
-- with the streams open that were open before.
abbrev pub Ends : {S A : Type 0} → List ℕ → (World S → Type 0) → Exit S Status A → Type 0
Ends gs P (next a w) = P w
Ends gs P (leave st w) = (st.status ≡ error) × (w.open_streams ≡ gs)
Ends gs P (stop x) = ⊥

module _ {S : Type 0} (os : Os S) (src dst : ℕ) (L : StreamLaws os src dst) (gs : List ℕ)
    (src_open : contains src gs ≡ true) (dst_open : contains dst gs ≡ true) where
  open L use {unread, sunk}

  -- Both streams are open.
  abbrev IsOpen : World S → Type 0
  IsOpen w = w.open_streams ≡ gs

  src_in : (w : World S) → IsOpen w → contains src w.open_streams ≡ true
  src_in w h = rw h src_open

  dst_in : (w : World S) → IsOpen w → contains dst w.open_streams ≡ true
  dst_in w h = rw h dst_open

  -- All of the bytes have gone to the destination.
  abbrev Wrote : World S → Bytes → World S → Type 0
  Wrote w bytes w' = (sunk w'.os ≡ sunk w.os ++ bytes) × (unread w'.os ≡ unread w.os) × IsOpen w'

  Ends-map :
      {A : Type 0} {P Q : World S → Type 0} (e : Exit S Status A)
      → ((w : World S) → P w → Q w)
      → Ends gs P e
      → Ends gs Q e
  Ends-map (next a w) f h = f w h
  Ends-map (leave st w) f h = h
  Ends-map (stop x) f h = h

  -- What was written first, and then the rest.
  Wrote-trans :
      (w v u : World S) (k : ℕ) (bytes : Bytes)
      → Wrote w (take k bytes) v
      → Wrote v (drop k bytes) u
      → Wrote w bytes u
  Wrote-trans w v u k bytes (s1, r1, o1) (s2, r2, o2) = (
    s2
        ∙ ap (λ x. x ++ drop k bytes) s1
        ∙ append_assoc (sunk w.os) (take k bytes) (drop k bytes)
        ∙ ap (λ x. sunk w.os ++ x) (take-append-drop k bytes),
    r2 ∙ r1,
    o2,
  )

  write_round-Ends :
      (again : Bytes → Proc S Status (Unit {0})) (bytes : Bytes) (w : World S)
      → ((rest : Bytes) (v : World S)
          → length rest < length bytes
          → IsOpen v
          → Ends gs (Wrote v rest) (again rest v))
      → IsOpen w
      → Ends gs (Wrote w bytes) (write_round os (install_platform_posix os) again dst bytes w)
  unfolding write_round install_status_assign iposix_error_message_current
  write_round-Ends again [] w ih opened = (sym (append-nil _), refl, opened)
  write_round-Ends again (b ∷ bs) w ih opened =
      let k : ℕ = (os.fwrite dst (b ∷ bs) w.os).0 in
      let v : World S = record w { os = (os.fwrite dst (b ∷ bs) w.os).1 } in
      elim (Bool-cases (k == 0)) [
        | inl nothing ↦
            let failed = L.fwrite_fails b bs w.os ((==_iff k 0).0 nothing) in
            rw
              (Ends, dst_in w opened, nothing, dst_in w opened, failed.0, dst_in w opened, failed.1)
              (refl, opened)
        | inr written ↦
            rw (dst_in w opened, written, Ends)
              (Ends-map (again (drop k (b ∷ bs)) v)
                (λ u h.
                  Wrote-trans w v u k (b ∷ bs)
                    (L.fwrite_gives (b ∷ bs) w.os, L.fwrite_keeps (b ∷ bs) w.os, opened) h)
                (ih (drop k (b ∷ bs)) v (ground (arith, length-drop {0} k (b ∷ bs))) opened))
      ]

  write_block-Ends :
      (fuel : ℕ) (bytes : Bytes) (w : World S)
      → length bytes < fuel
      → IsOpen w
      → Ends gs (Wrote w bytes) (write_block os (install_platform_posix os) fuel dst bytes w)
  unfolding write_block
  write_block-Ends zero bytes w enough opened = elim enough [ ]
  write_block-Ends (suc fuel) bytes w enough opened =
      write_round-Ends (write_block os (install_platform_posix os) fuel dst) bytes w
        (λ rest v shorter still. write_block-Ends fuel rest v (omega arith) still) opened

  -- The source is at its end, and the destination was given all that it had left.
  abbrev Copied : World S → World S → Type 0
  Copied w w' = (sunk w'.os ≡ sunk w.os ++ unread w.os) × (unread w'.os ≡ []) × IsOpen w'

  Ends-bind :
      {A B : Type 0} {P : World S → Type 0} (Q : World S → Type 0) (e : Exit S Status A)
      (f : A → Proc S Status B)
      → Ends gs P e
      → ((a : A) (v : World S) → P v → Ends gs Q (f a v))
      → Ends gs Q (elim e [ next a v ↦ f a v | leave r v ↦ leave r v | stop x ↦ stop x ])
  Ends-bind Q (next a v) f h g = g a v h
  Ends-bind Q (leave r v) f h g = h
  Ends-bind Q (stop x) f h g = h

  -- The world behind a read.
  abbrev behind : World S → World S
  behind w = record w { os = (os.fread src copy_buf_size w.os).1 }

  abbrev block_of : World S → Bytes
  block_of w = (os.fread src copy_buf_size w.os).0

  -- A block, and then what was left behind it.
  Copied-trans : (w v u : World S) → Wrote (behind w) (block_of w) v → Copied v u → Copied w u
  Copied-trans w v u (s1, r1, o1) (s2, r2, o2) = (
    s2
        ∙ ap (λ x. x ++ unread v.os) s1
        ∙ append_assoc (sunk (behind w).os) (block_of w) (unread v.os)
        ∙ ap (λ x. sunk (behind w).os ++ (block_of w ++ x)) r1
        ∙ ap (λ x. sunk (behind w).os ++ x) (sym (L.fread_takes copy_buf_size w.os))
        ∙ ap (λ x. x ++ unread w.os) (L.fread_keeps copy_buf_size w.os),
    r2,
    o2,
  )

  shorter-unread :
      (w v : World S)
      → (length (block_of w) == 0) ≡ false
      → unread v.os ≡ unread (behind w).os
      → length (unread v.os) < length (unread w.os)
  shorter-unread w v full same =
      rw (same, L.fread_takes copy_buf_size w.os)
        (ground (arith, length-append {0} (block_of w) (unread (behind w).os)))

  Copied-at_end :
      (w : World S)
      → (length (block_of w) == 0) ≡ true
      → (os.feof src (behind w).os).0 ≡ true
      → IsOpen w
      → Copied w (record (behind w) { os = (os.feof src (behind w).os).1 })
  Copied-at_end w empty ended opened =
      let same = L.feof_same (behind w).os in
      let left : unread (behind w).os ≡ [] = L.feof_means (behind w).os ended in
      let none_left : unread w.os ≡ [] =
        L.fread_takes copy_buf_size w.os ∙ rw (eq-nil (block_of w) empty) left in
      (
        rw same (L.fread_keeps copy_buf_size w.os ∙ sym (rw none_left (append-nil (sunk w.os)))),
        rw same left,
        opened,
      )

  copy_round-Ends :
      (again : Proc S Status (Unit {0})) (writes : ℕ) (w : World S)
      → copy_buf_size < writes
      → IsOpen w
      → ((v : World S)
          → length (unread v.os) < length (unread w.os)
          → IsOpen v
          → Ends gs (Copied v) (again v))
      → Ends gs (Copied w) (copy_round os (install_platform_posix os) again writes src dst w)
  unfolding copy_round install_status_assign iposix_error_message_current
  copy_round-Ends again writes w room opened ih = elim (Bool-cases (length (block_of w) == 0)) [
    | inl empty ↦ elim (Bool-cases (os.feof src (behind w).os).0) [
      | inl ended ↦
          rw (Ends, src_in w opened, empty, src_in w opened, ended)
            (Copied-at_end w empty ended opened)
      | inr more ↦ elim (L.fread_ends 65535 w.os ((==_iff _ 0).0 empty)) [
        | inl ended ↦ absurd (ground arith)
        | inr failed ↦
            rw
              (
                Ends,
                src_in w opened,
                empty,
                src_in w opened,
                more,
                src_in w opened,
                L.feof_same (behind w).os,
                failed,
              )
              (refl, opened)
      ]
    ]
    | inr full ↦
        rw (src_in w opened, full, Ends)
          (Ends-bind (Copied w)
            (write_block os (install_platform_posix os) writes dst (block_of w) (behind w))
            (λ _. again)
            (write_block-Ends writes (block_of w) (behind w)
              (omega (arith, L.fread_bound copy_buf_size w.os)) opened)
            (λ _ v wrote.
              Ends-map (again v) (λ u copied. Copied-trans w v u wrote copied)
                (ih v (shorter-unread w v full wrote.1) wrote.2)))
  ]

  -- On a POSIX system, for two open streams that behave as the C library documents: if the fuel
  -- exceeds what the source has left, and that of the inner loop the size of the buffer, the
  -- copying loop ends: either with an error status, or with the source at its end, the
  -- destination given exactly the bytes that the source had left, and the open streams as before.
  pub copy_loop-Ends :
      (writes fuel : ℕ) (w : World S)
      → copy_buf_size < writes
      → length (unread w.os) < fuel
      → IsOpen w
      → Ends gs (Copied w) (copy_loop os (install_platform_posix os) writes fuel src dst w)
  unfolding copy_loop
  copy_loop-Ends writes zero w room enough opened = elim enough [ ]
  copy_loop-Ends writes (suc fuel) w room enough opened =
      copy_round-Ends (copy_loop os (install_platform_posix os) writes fuel src dst) writes w room
        opened (λ v shorter still. copy_loop-Ends writes fuel v room (omega arith) still)
