-- ===== src/Install/Translate/Rooted.antt =====
-- With a fake root, the name translation callbacks of install-core.c leave no path outside of it.
use coreland_c_string.Base.{
  ℕ, zero, suc, ◌-◌, ◌<◌, ◌≤◌, ◌≡◌, refl, sym, subst, ap, ◌∙◌, Option, none, some, [], ◌∷◌, ◌++◌,
  append_assoc, Bytes, length, take, lit, arith, Bool-cases, inl, inr,
}
use mathlib.Core.Option.{some-injective}
use coreland_c_string.Install.Header.{Item}
use coreland_c_string.Install.World.{
  World, Res, done, fault, Exit, next, leave, stop, Proc, call, if_null,
}
use coreland_c_string.Install.Os.{Os}
use coreland_c_string.Install.Posix.{iposix_error_message_current}
use coreland_c_string.Install.Status.{install_status_assign}
use coreland_c_string.Install.Strings.{base_name, str_ends}
use coreland_c_string.Install.Translate.{
  Translated, libname, default_dst, ntran_copy, ntran_copy_exec, ntran_link, ntran_liblink,
  ntran_mkdir, ntran_chk_link, ntran_chk_liblink, library_source, root_dir, link_path, rooted,
}
use coreland_c_string.Install.Translate.Statements.{
  HasRoot, platform, Goes, Finds, Returns, Goes-bind, libname-Preserves, libname-Goes,
  required-Goes, format_path-Goes, real_name-Goes, asserted-Goes, deref-Goes, accept-Goes,
  Returns-exit, after_result,
}

-- A path below the root.
abbrev pub Below : Bytes → Option Bytes → Type 0
Below root path = (rest : Bytes) × (path ≡ some (root ++ (lit "/" ++ rest)))

-- Cutting behind a beginning that fits cuts the rest.
take-append_long :
    (n : ℕ) (a b : Bytes) → length a ≤ n → take n (a ++ b) ≡ a ++ take (n - length a) b
take-append_long n [] b h = ap (λ k. take k b) (omega arith)
take-append_long zero (x ∷ a) b h = absurd (omega arith)
take-append_long (suc n) (x ∷ a) b h =
    ap (λ r. x ∷ r) (take-append_long n a b (omega arith) ∙ ap (λ k. a ++ take k b) (omega arith))

module _ {S : Type 0} (os : Os S) (root : Bytes) (short : length root < 1023) where
  -- A cut path behind the root is below it.
  Below-take :
      (text rest : Bytes) → text ≡ root ++ (lit "/" ++ rest) → Below root (some (take 1023 text))
  unfolding lit
  Below-take text rest e = (
    take (1022 - length root) rest,
    ap (λ r. some r)
        (ap (take 1023) e
          ∙ take-append_long 1023 root (lit "/" ++ rest) (omega arith)
          ∙ ap (λ k. root ++ take k (lit "/" ++ rest)) room),
  )
    where
      room : 1023 - length root ≡ suc (1022 - length root)
      room = omega arith

  Below-append :
      (dir more : Bytes) → Below root (some dir) → Below root (some (take 1023 (dir ++ more)))
  Below-append dir more (rest, e) = Below-take (dir ++ more) (rest ++ more) (
      ap (λ d. d ++ more) (some-injective _ _ e)
      ∙ append_assoc root (lit "/" ++ rest) more
      ∙ ap (λ r. root ++ r) (append_assoc (lit "/") rest more))

  -- The places that are below the root when a translation has returned OK.
  abbrev DstBelow : Item → Type 0
  DstBelow item = Below root item.dst

  abbrev DirBelow : Item → Type 0
  DirBelow item = Below root item.dir

  under_dir :
      (dir name : Bytes)
      → (root ++ (lit "/" ++ dir)) ++ (lit "/" ++ name)
        ≡ root ++ (lit "/" ++ (dir ++ (lit "/" ++ name)))
  under_dir dir name =
      append_assoc root (lit "/" ++ dir) (lit "/" ++ name)
      ∙ ap (λ r. root ++ r) (append_assoc (lit "/") dir (lit "/" ++ name))

  pub ntran_copy-Returns :
      (item : Item) (w : World S)
      → HasRoot os root w
      → Returns os root DstBelow (ntran_copy os (platform os root) item w)
  unfolding ntran_copy install_status_assign iposix_error_message_current
  ntran_copy-Returns item w h = Returns-exit os root DstBelow _ (
      Goes-bind os root _ (Finds os root DstBelow) _ _
        (required-Goes os root item.src item "source file undefined" w h)
        λ src w _ h.
          Goes-bind os root _ (Finds os root DstBelow) _ _
            (required-Goes os root item.dir item "directory undefined" w h)
            λ dir w _ h.
              Goes-bind os root _ (Finds os root DstBelow) _ _ (real_name-Goes os root _ src w h)
                λ real_src w _ h.
                  Goes-bind os root _ (Finds os root DstBelow) _ _
                    (asserted-Goes os root (default_dst os (platform os root) item.dst item.src) w
                      h)
                    λ dst w _ h.
                      Goes-bind os root _ (Finds os root DstBelow) _ _
                        (real_name-Goes os root _ dst w h)
                        λ real_dst w _ h.
                          Goes-bind os root _ (Finds os root DstBelow) _ _
                            (required-Goes os root (base_name real_dst) _ "invalid destination path"
                              w h)
                            λ name v _ g.
                              Goes-bind os root _ (Finds os root DstBelow) _ _
                                (format_path-Goes os root _
                                  (rooted os (platform os root) item v.fake_root dir
                                    ++ (lit "/" ++ name))
                                  "could not format destination path" v g)
                                λ path w cut h.
                                  accept-Goes os root DstBelow
                                    (record item { src = some real_src; dst = some path }) w h
                                    (subst (λ p. Below root (some p)) (sym cut)
                                      (Below-take _ (dir ++ (lit "/" ++ name)) (
                                        ap
                                          (λ r.
                                            rooted os (platform os root) item r dir
                                            ++ (lit "/" ++ name))
                                          g
                                        ∙ under_dir dir name))))

  pub ntran_copy_exec-Returns :
      (item : Item) (w : World S)
      → HasRoot os root w
      → Returns os root DstBelow (ntran_copy_exec os (platform os root) item w)
  unfolding ntran_copy_exec
  ntran_copy_exec-Returns item w h = Returns-exit os root DstBelow _ (
      after_result os root DstBelow DstBelow (ntran_copy os (platform os root) item w) _
        (ntran_copy-Returns item w h)
        λ t v below g.
          Goes-bind os root _ (Finds os root DstBelow) _ _ (asserted-Goes os root t.1.src v g)
            λ src v _ g.
              Goes-bind os root _ (Finds os root DstBelow) _ _ (asserted-Goes os root t.1.dst v g)
                λ dst v is_dst g.
                  Goes-bind os root _ (Finds os root DstBelow) _ _
                    (format_path-Goes os root t.1 (src ++ v.exec_suffix)
                      "could not format source path" v g)
                    λ src_name u _ k.
                      Goes-bind os root _ (Finds os root DstBelow) _ _
                        (format_path-Goes os root t.1 (dst ++ v.exec_suffix)
                          "could not format destination path" u k)
                        λ dst_name u cut k.
                          accept-Goes os root DstBelow
                            (record (t.1) { src = some src_name; dst = some dst_name }) u k
                            (subst (λ p. Below root (some p)) (sym cut)
                              (Below-append dst v.exec_suffix (subst (Below root) is_dst below))))

  -- A branch on the fake root, which is set.
  if_null-Goes :
      {A : Type 0} (Q : A → Type 0) (r : Option Bytes) (p : Proc S Translated A)
      (f : Bytes → Proc S Translated A) (w : World S)
      → r ≡ some root
      → Goes os root Q (f root w)
      → Goes os root Q (if_null r p f w)
  if_null-Goes Q none p f w e h = cc
  if_null-Goes Q (some b) p f w e h =
      subst (λ (b : Bytes). Goes os root Q (f b w)) (sym (some-injective _ _ e)) h

  root_dir-Goes :
      (item : Item) (dir : Bytes) (w : World S)
      → HasRoot os root w
      → Goes os root DirBelow (root_dir os (platform os root) item dir w)
  root_dir-Goes item dir w h = if_null-Goes DirBelow w.fake_root _ _ w h (
      Goes-bind os root _ DirBelow _ _
        (format_path-Goes os root item (root ++ (lit "/" ++ dir))
          "could not format destination path" w h)
        λ path v cut g. (
          subst (λ p. Below root (some p)) (sym cut)
              (Below-take (root ++ (lit "/" ++ dir)) dir refl),
          g,
        ))

  pub ntran_link-Returns :
      (item : Item) (w : World S)
      → HasRoot os root w
      → Returns os root DirBelow (ntran_link os (platform os root) item w)
  unfolding ntran_link
  ntran_link-Returns item w h = Returns-exit os root DirBelow _ (
      Goes-bind os root _ (Finds os root DirBelow) _ _
        (required-Goes os root item.src item "source file undefined" w h)
        λ src w _ h.
          Goes-bind os root _ (Finds os root DirBelow) _ _
            (required-Goes os root item.dir item "directory undefined" w h)
            λ dir w _ h.
              Goes-bind os root _ (Finds os root DirBelow) _ _
                (required-Goes os root item.dst item "destination file undefined" w h)
                λ dst w _ h.
                  Goes-bind os root DirBelow (Finds os root DirBelow) _ _
                    (root_dir-Goes item dir w h)
                    λ item w below h. accept-Goes os root DirBelow item w h below)

  library_source-Goes :
      (item : Item) (src : Bytes) (w : World S)
      → HasRoot os root w
      → DirBelow item
      → Goes os root DirBelow (library_source os (platform os root) item src w)
  library_source-Goes item src w h below = elim (Bool-cases (str_ends src (lit ".vlb"))) [
    | inl virtual ↦ rw virtual (
        Goes-bind os root (λ _. Unit) DirBelow (call (libname os (some src)) w) _
          (libname-Goes os root (libname os (some src) w)
            ((libname-Preserves os root (some src)).at w h))
          λ read v _ g.
            Goes-bind os root _ DirBelow _ _
              (required-Goes os root read item "could not build library name" v g)
              λ name v _ g.
                Goes-bind os root _ DirBelow _ _
                  (required-Goes os root (base_name name) (record item { src = some name })
                    "invalid source path" v g)
                  λ base v _ g. (below, g))
    | inr plain ↦ rw plain (below, h)
  ]

  pub ntran_liblink-Returns :
      (item : Item) (w : World S)
      → HasRoot os root w
      → Returns os root DirBelow (ntran_liblink os (platform os root) item w)
  unfolding ntran_liblink
  ntran_liblink-Returns item w h = Returns-exit os root DirBelow _ (
      Goes-bind os root _ (Finds os root DirBelow) _ _
        (required-Goes os root item.src item "source file undefined" w h)
        λ src w _ h.
          Goes-bind os root _ (Finds os root DirBelow) _ _
            (required-Goes os root item.dir item "directory undefined" w h)
            λ dir w _ h.
              Goes-bind os root _ (Finds os root DirBelow) _ _
                (required-Goes os root item.dst item "destination file undefined" w h)
                λ dst w _ h.
                  Goes-bind os root DirBelow (Finds os root DirBelow) _ _
                    (root_dir-Goes item dir w h)
                    λ item w below h.
                      Goes-bind os root DirBelow (Finds os root DirBelow) _ _
                        (library_source-Goes item src w h below)
                        λ item w below h.
                          Goes-bind os root _ (Finds os root DirBelow) _ _
                            (required-Goes os root (base_name dst) item "invalid destination path" w
                              h)
                            λ name w _ h.
                              Goes-bind os root _ (Finds os root DirBelow) _ _
                                (format_path-Goes os root (record item { dst = some name })
                                  (name ++ w.dlib_suffix) "could not format destination path" w h)
                                λ path w _ h.
                                  accept-Goes os root DirBelow (record item { dst = some path }) w h
                                    below)

  pub ntran_mkdir-Returns :
      (item : Item) (w : World S)
      → HasRoot os root w
      → Returns os root DirBelow (ntran_mkdir os (platform os root) item w)
  unfolding ntran_mkdir
  ntran_mkdir-Returns item w h =
      let item' : Item = record item {
        dst = default_dst os (platform os root) item.dst item.src;
      } in
      Returns-exit os root DirBelow _ (
        if_null-Goes (Finds os root DirBelow) w.fake_root _ _ w h (
          Goes-bind os root _ (Finds os root DirBelow) _ _ (deref-Goes os root item.dir w h)
            λ dir v _ g.
              Goes-bind os root _ (Finds os root DirBelow) _ _
                (format_path-Goes os root item' (root ++ (lit "/" ++ dir))
                  "could not format destination path" v g)
                λ path v cut g.
                  accept-Goes os root DirBelow (record item' { dir = some path }) v g
                    (subst (λ p. Below root (some p)) (sym cut)
                      (Below-take (root ++ (lit "/" ++ dir)) dir refl))))

  link_path-Goes :
      (r : Res S Translated)
      → Returns os root DirBelow r
      → Goes os root
          (Finds os root DstBelow)
          (elim (elim r as (λ _. Exit S Translated Translated) [
            | done a w ↦ next a w
            | fault x ↦ stop x
          ]) [
            | next a w ↦ link_path os (platform os root) a w
            | leave r w ↦ leave r w
            | stop x ↦ stop x
          ])
  link_path-Goes r h = after_result os root DirBelow DstBelow r _ h λ t v below g.
      Goes-bind os root _ (Finds os root DstBelow) _ _ (deref-Goes os root t.1.dir v g)
        λ dir v is_dir g.
          Goes-bind os root _ (Finds os root DstBelow) _ _ (deref-Goes os root t.1.dst v g)
            λ dst v _ g.
              Goes-bind os root _ (Finds os root DstBelow) _ _
                (format_path-Goes os root t.1 (dir ++ (lit "/" ++ dst))
                  "could not format destination path" v g)
                λ path v cut g.
                  accept-Goes os root DstBelow (record (t.1) { dst = some path }) v g
                    (subst (λ p. Below root (some p)) (sym cut)
                      (Below-append dir (lit "/" ++ dst) (subst (Below root) is_dir below)))

  pub ntran_chk_link-Returns :
      (item : Item) (w : World S)
      → HasRoot os root w
      → Returns os root DstBelow (ntran_chk_link os (platform os root) item w)
  unfolding ntran_chk_link
  ntran_chk_link-Returns item w h =
      Returns-exit os root DstBelow _
        (link_path-Goes (ntran_link os (platform os root) item w) (ntran_link-Returns item w h))

  pub ntran_chk_liblink-Returns :
      (item : Item) (w : World S)
      → HasRoot os root w
      → Returns os root DstBelow (ntran_chk_liblink os (platform os root) item w)
  unfolding ntran_chk_liblink
  ntran_chk_liblink-Returns item w h =
      Returns-exit os root DstBelow _ (
        link_path-Goes (ntran_liblink os (platform os root) item w)
          (ntran_liblink-Returns item w h))
