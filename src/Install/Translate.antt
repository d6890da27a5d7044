-- ===== src/Install/Translate.antt =====
-- libname and the name translation callbacks of install-core.c. An item's strings are values
-- here: the static buffers that the code points into hold them until the next item of that kind.
pub mod Laws
pub mod Statements
pub mod Rooted
use coreland_c_string.Base.{
  ℕ, zero, suc, ◌==◌, ltb, Bool, true, false, ◌&&◌, not, Option, none, some, List, [], ◌∷◌, ◌++◌,
  Bytes, length, ℤ, pos, minus_one, ◌==ℤ◌, is_negative, lit, String, snprintf_text, snprintf_value,
  if◌then◌else◌,
}
use coreland_c_string.Install.Header.{Item, Status, StatusCode, ok, error, fatal, max_pathlen}
use coreland_c_string.Install.World.{
  World, M, Res, done, fault, Exit, next, leave, stop, Proc, proc, call, pure, skip, if_null, raise,
  gets, return_now, asserted, deref, buffer_overflow, ◌>>=◌, ◌>>◌,
}
use coreland_c_string.Install.Os.{Os}
use coreland_c_string.Install.Os.Stdio.{fopen, fread, ferror, fclose}
use coreland_c_string.Install.Platform.{Platform}
use coreland_c_string.Install.Strings.{base_name, str_ends, clean_blanks, c_string}
use coreland_c_string.Install.Status.{install_status_assign, error_status, ok_status}
use coreland_c_string.Install.Operators.{is_ok}

-- A status with the item as it stands.
abbrev pub Translated : Type 0
Translated = Status × Item

-- `INSTALL_MAX_PATHLEN` bytes are read into a buffer, cleaned, and copied to one of that size
-- with a NUL behind them: `none` where the NUL has no room.
unfoldable pub clean_name : Bytes → Option Bytes
clean_name read =
    if ltb (length (clean_blanks read)) max_pathlen
    then some (c_string (clean_blanks read))
    else none

module _ {S : Type 0} (os : Os S) where
  abbrev pub cleaned : Option Bytes → Proc S (Option Bytes) (Option Bytes)
  cleaned none = raise buffer_overflow
  cleaned (some name) = pure (some name)

  -- `libname`: `none` where it returns 0.
  unfoldable pub libname : Option Bytes → M S (Option Bytes)
  libname name = proc do
    path ← asserted name
    opened ← fopen os path (lit "rb")
    fp ← if_null opened (return_now none) pure
    read ← fread os fp max_pathlen
    failed ← if ltb (length read) max_pathlen then ferror os fp else pure false
    result ← if failed then pure none else cleaned (clean_name read)
    closed ← fclose os fp
    if closed ==ℤ pos 0 then pure result else pure none

module _ {S : Type 0} (os : Os S) (platform : Platform S) where
  -- An error message and a return, with the item as it stands.
  abbrev reject : {A : Type 0} → Item → String → Proc S Translated A
  reject item text = do status ← error_status platform (lit text); return_now (status, item)

  abbrev pub required : {A : Type 0} → Option A → Item → String → Proc S Translated A
  required none item text = reject item text
  required (some a) item text = pure a

  abbrev accept : Item → Proc S Translated Translated
  accept item = do status ← ok_status platform; pure (status, item)

  -- `snprintf` into a path buffer, with its test.
  abbrev format_path : Item → Bytes → String → Proc S Translated Bytes
  format_path item text complaint =
      if is_negative (snprintf_value text)
      then reject item complaint
      else pure (snprintf_text max_pathlen text)

  -- The real name of a virtual library file; any other name as it is.
  abbrev real_name : Item → Bytes → Proc S Translated Bytes
  real_name item name =
      if str_ends name (lit ".vlb")
      then (do
        read ← call (libname os (some name))
        required read item "could not build library name")
      else pure name

  -- The directory, behind the fake root if one is set.
  abbrev rooted : Item → Option Bytes → Bytes → Bytes
  rooted item none dir = dir
  rooted item (some root) dir = root ++ (lit "/" ++ dir)

  -- `if (item->dst == NULL) item->dst = item->src;`
  abbrev pub default_dst : Option Bytes → Option Bytes → Option Bytes
  default_dst none src = src
  default_dst (some dst) src = some dst

  unfoldable pub ntran_copy : Item → M S Translated
  ntran_copy item = proc do
    src ← required item.src item "source file undefined"
    dir ← required item.dir item "directory undefined"
    let item = record item { dst = default_dst item.dst item.src }
    real_src ← real_name item src
    let item = record item { src = some real_src }
    dst ← asserted item.dst
    real_dst ← real_name item dst
    let item = record item { dst = some real_dst }
    name ← required (base_name real_dst) item "invalid destination path"
    let item = record item { dst = some name }
    fake_root ← gets (λ w. w.fake_root)
    path ←
        format_path item (rooted item fake_root dir ++ (lit "/" ++ name))
          "could not format destination path"
    accept (record item { dst = some path })

  unfoldable pub ntran_copy_exec : Item → M S Translated
  unfolding ntran_copy
  ntran_copy_exec item = proc do
    basic ← call (ntran_copy item)
    if is_ok basic.0 then skip else return_now basic
    let item = basic.1
    src ← asserted item.src
    dst ← asserted item.dst
    suffix ← gets (λ w. w.exec_suffix)
    src_name ← format_path item (src ++ suffix) "could not format source path"
    dst_name ← format_path item (dst ++ suffix) "could not format destination path"
    accept (record item { src = some src_name; dst = some dst_name })

  -- `item->dir = dir_name` if a fake root was specified
  abbrev root_dir : Item → Bytes → Proc S Translated Item
  root_dir item dir = do
    fake_root ← gets (λ w. w.fake_root)
    if_null fake_root (pure item) λ root. do
      path ← format_path item (root ++ (lit "/" ++ dir)) "could not format destination path"
      pure (record item { dir = some path })

  unfoldable pub ntran_link : Item → M S Translated
  ntran_link item = proc do
    src ← required item.src item "source file undefined"
    dir ← required item.dir item "directory undefined"
    dst ← required item.dst item "destination file undefined"
    item ← root_dir item dir
    accept item

  -- The source of a library link: a virtual library file gives its real name's last part.
  abbrev library_source : Item → Bytes → Proc S Translated Item
  library_source item src =
      if str_ends src (lit ".vlb")
      then (do
        read ← call (libname os (some src))
        name ← required read item "could not build library name"
        let item = record item { src = some name }
        base ← required (base_name name) item "invalid source path"
        pure (record item { src = some base }))
      else pure item

  unfoldable pub ntran_liblink : Item → M S Translated
  ntran_liblink item = proc do
    src ← required item.src item "source file undefined"
    dir ← required item.dir item "directory undefined"
    dst ← required item.dst item "destination file undefined"
    item ← root_dir item dir
    item ← library_source item src
    name ← required (base_name dst) item "invalid destination path"
    let item = record item { dst = some name }
    suffix ← gets (λ w. w.dlib_suffix)
    path ← format_path item (name ++ suffix) "could not format destination path"
    accept (record item { dst = some path })

  -- `snprintf (…, "%s/%s", inst_fake_root, item->dir)`: a null directory is passed to `%s`.
  unfoldable pub ntran_mkdir : Item → M S Translated
  ntran_mkdir item = proc do
    let item = record item { dst = default_dst item.dst item.src }
    fake_root ← gets (λ w. w.fake_root)
    if_null fake_root (accept item) λ root. do
      dir ← deref item.dir
      path ← format_path item (root ++ (lit "/" ++ dir)) "could not format destination path"
      accept (record item { dir = some path })

  -- The path of a link for the check: the directory and the name.
  abbrev link_path : Translated → Proc S Translated Translated
  link_path basic = do
    if is_ok basic.0 then skip else return_now basic
    dir ← deref basic.1.dir
    dst ← deref basic.1.dst
    path ← format_path basic.1 (dir ++ (lit "/" ++ dst)) "could not format destination path"
    accept (record (basic.1) { dst = some path })

  unfoldable pub ntran_chk_link : Item → M S Translated
  unfolding ntran_link
  ntran_chk_link item = proc do basic ← call (ntran_link item); link_path basic

  unfoldable pub ntran_chk_liblink : Item → M S Translated
  unfolding ntran_liblink
  ntran_chk_liblink item = proc do basic ← call (ntran_liblink item); link_path basic
