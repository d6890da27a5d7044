-- ===== src/Tests/Install.antt =====
-- The theorems of the installer at concrete data.
use coreland_c_string.Base.{
  ◌+◌, ◌≡◌, refl, arith, ◌↔◌, true, false, none, some, [], ◌∷◌, ◌++◌, Bytes, strcmp_eq, replicate,
  pos, minus_one, lit,
}
use coreland_c_string.Install.Header.{
  copy, mkdir, Item, ok, error, status_init, file, directory, dryrun,
}
use coreland_c_string.Install.World.{World, done, next, proc, bad_stream}
use coreland_c_string.Install.Os.{Os}
use coreland_c_string.Install.Os.Stdio.{contains, remove}
use coreland_c_string.Install.Posix.{install_platform_posix, iposix_error_message_current}
use coreland_c_string.Install.Status.{install_status_assign}
use coreland_c_string.Install.Strings.{
  slash, base_name, str_ends, c_string, is_suffix_char, install_suffix_sanitize,
}
use coreland_c_string.Install.Strings.BaseName.{below, base_name-path}
use coreland_c_string.Install.Strings.Ends.{str_ends_iff}
use coreland_c_string.Install.Strings.Suffix.{IsLongest, install_suffix_sanitize-IsLongest}
use coreland_c_string.Install.FileTypes.{
  install_file_type_lookup, install_file_type_name_lookup, type_of_info,
}
use coreland_c_string.Install.FileTypes.Laws.{lookup-name_lookup}
use coreland_c_string.Install.Rmkdir.{install_rmkdir}
use coreland_c_string.Install.Rmkdir.Laws.{
  ancestors, make_all, Returns, install_rmkdir-eq-make_all, install_rmkdir-posix,
}
use coreland_c_string.Install.Copy.{copy_loop, finish_copy, copy_error, install_file_copy}
use coreland_c_string.Install.Copy.Content.{Ends, copy_loop-Ends}
use coreland_c_string.Install.Copy.Streams.{Balanced, Stops, finish_copy-error}
use coreland_c_string.Install.Copy.Whole.{Copies, install_file_copy-Whole}
use coreland_c_string.Install.Check.{check_type}
use coreland_c_string.Install.Check.Laws.{check_type-posix}
use coreland_c_string.Install.Translate.{ntran_copy, libname}
use coreland_c_string.Install.Translate.Laws.{succeeded, ntran_copy-target, Names, libname-word}
use coreland_c_string.Install.Interface.{install, install_check, install_init, install_fake_root}
use coreland_c_string.Install.Interface.DryRun.{LeavesView, install_dry}
use coreland_c_string.Install.Interface.Failures.{Counts, is_checked, install_check-Counts}
use coreland_c_string.Install.Interface.Init.{suffix_of, install_init-suffix}
use coreland_c_string.Install.Programs.{Ctxt, run_items, installer_main, deinstaller_main}
use coreland_c_string.Install.Programs.Start.{MessagesKeep}
use coreland_c_string.Install.Programs.DryRun.{main_dry}
use coreland_c_string.Install.Programs.Failed.{FailedExactly, failures, run_items-failures}
use coreland_c_string.Tests.Machine.{
  Machine, machine, machine_streams, machine_keeps, machine_reads, start, fresh,
}

abbrev mkdir_item : Item
mkdir_item = record {
  op = mkdir;
  src = none;
  dst = none;
  dir = some (lit "/a/b");
  owner = none;
  group = none;
  perm = pos 0o755;
}

install_dry_example :
    LeavesView
      (λ s. s.made)
      []
      (install machine (install_platform_posix machine) 1 1 mkdir_item dryrun fresh)
install_dry_example =
    install_dry machine (λ s. s.made) machine_reads 1 1 dryrun fresh mkdir_item refl tt

abbrev rooted : Ctxt
rooted = record {
  bindir = lit "/bin";
  incdir = lit "/include";
  dlibdir = lit "/lib";
  slibdir = lit "/lib";
  repos = lit "/repos";
  fakeroot = lit "/root";
  version = lit "1.0";
}

machine_messages : MessagesKeep machine (λ s. s.made)
machine_messages = record { feof = λ f s. refl; print_error = λ text s. refl }

-- A world whose suffix file holds "so".
abbrev with_suffix : World Machine
with_suffix = record fresh { os = record fresh.os { input = lit "so" } }

main_dry_example :
    LeavesView
      (λ s. s.made)
      []
      (installer_main machine
        (install_platform_posix machine)
        1
        1
        rooted
        (mkdir_item ∷ [])
        2
        with_suffix)
    × LeavesView
        (λ s. s.made)
        []
        (deinstaller_main machine
          (install_platform_posix machine)
          1
          1
          rooted
          (mkdir_item ∷ [])
          2
          with_suffix)
main_dry_example =
    main_dry machine (λ s. s.made) machine_reads machine_messages 1 1 2 rooted (mkdir_item ∷ [])
      with_suffix refl tt

install_check_example :
    Counts 0
      (is_checked machine 1 1 mkdir_item fresh)
      (install_check machine (install_platform_posix machine) 1 1 mkdir_item fresh)
install_check_example = install_check-Counts machine 1 1 mkdir_item fresh

run_items-failures_example :
    FailedExactly (0 + failures machine 1 1 (lit "instchk") (mkdir_item ∷ mkdir_item ∷ []) fresh) (
      run_items machine
        (install_platform_posix machine)
        1
        1
        (lit "instchk")
        (λ item. install_check machine (install_platform_posix machine) 1 1 item)
        (mkdir_item ∷ mkdir_item ∷ [])
        fresh)
run_items-failures_example =
    run_items-failures machine 1 1 (lit "instchk") (mkdir_item ∷ mkdir_item ∷ []) fresh
      (omega arith)

install_rmkdir_example :
    install_rmkdir machine (install_platform_posix machine) 0o755 (some (lit "a/b"))
    ≡ proc
        (make_all machine (install_platform_posix machine) 0o755 (ancestors [] false (lit "a/b")))
unfolding lit
install_rmkdir_example =
    install_rmkdir-eq-make_all machine (install_platform_posix machine) 0o755 (lit "a/b")
      (omega arith)

install_rmkdir-posix_example :
    Returns
      (pos 1)
      (install_rmkdir machine (install_platform_posix machine) 0o755 (some (lit "a/b")) fresh)
unfolding lit
install_rmkdir-posix_example = install_rmkdir-posix machine 0o755 (lit "a/b") fresh (omega arith)

base_name_example : base_name (lit "/etc/" ++ (lit "motd" ++ replicate 2 slash)) ≡ some (lit "motd")
unfolding lit
base_name_example =
    base_name-path (lit "/etc" ++ (slash ∷ [])) (lit "motd") 2 (below (lit "/etc")) (ground arith)
      (omega arith) (omega arith)

str_ends_example :
    (str_ends (lit "lib.vlb") (lit ".vlb") ≡ true)
    ↔ ((p : Bytes) × (lit "lib.vlb" ≡ p ++ lit ".vlb"))
str_ends_example = str_ends_iff (lit "lib.vlb") (lit ".vlb")

install_suffix_sanitize_example :
    IsLongest is_suffix_char (c_string (install_suffix_sanitize (lit ".so\n"))) (lit ".so\n")
install_suffix_sanitize_example = install_suffix_sanitize-IsLongest (lit ".so\n")

lookup-name_lookup_example :
    (name : Bytes) × (install_file_type_name_lookup directory ≡ some name)
    × (install_file_type_lookup name ≡ some directory)
lookup-name_lookup_example = lookup-name_lookup directory

-- Both streams of a copy are open.
abbrev copying : World Machine
copying = record fresh { next_stream = 2; open_streams = 1 ∷ 0 ∷ [] }

copy_loop_example :
    Ends
      (1 ∷ 0 ∷ [])
      (λ w.
        (w.os.output ≡ start.output ++ start.input)
        × (w.os.input ≡ [])
        × (w.open_streams ≡ 1 ∷ 0 ∷ []))
      (copy_loop machine (install_platform_posix machine) 65537 4 0 1 copying)
unfolding contains
copy_loop_example =
    copy_loop-Ends machine 0 1 machine_streams (1 ∷ 0 ∷ []) refl refl 65537 4 copying (omega arith)
      (omega arith) refl

install_file_copy_example :
    let result =
      install_file_copy machine
        (install_platform_posix machine)
        65537
        4
        (some (lit "a"))
        (some (lit "b"))
        (pos 0)
        (pos 0)
        0o644
        fresh in
    Balanced machine [] result × Copies (λ s. s.output) start.input result
install_file_copy_example =
    install_file_copy-Whole machine 65537 4 (lit "a") (lit "b") (pos 0) (pos 0) 0o644 fresh
      machine_streams machine_keeps tt refl (omega arith) (omega arith)

-- A machine whose stream 1 cannot be closed.
abbrev unclosed : Os Machine
unclosed = record machine { fclose = λ f s. (minus_one, s) }

finish_copy-error_example : Stops unclosed bad_stream (
    copy_error unclosed
      (install_platform_posix unclosed)
      (record {
        status = error;
        message = some (lit "could not close destination file");
        error_message = some (lit "error");
      })
      0
      (some 1)
      (lit "b.tmp")
      (pos 0)
      (record copying { open_streams = 0 ∷ [] }))
unfolding finish_copy iposix_error_message_current install_status_assign contains remove lit
finish_copy-error_example =
    finish_copy-error unclosed 0 1 (lit "b.tmp") (lit "b") (pos 0)
      (record {
        status = error;
        message = some (lit "could not close destination file");
        error_message = some (lit "error");
      })
      copying (record copying { open_streams = 0 ∷ [] }) refl

check_type-posix_example :
    check_type machine (install_platform_posix machine) file (lit "file") (lit "/etc") fresh
    ≡ next tt fresh
unfolding type_of_info
check_type-posix_example =
    check_type-posix machine file directory (lit "file") (lit "/etc") fresh
      (record { st_mode = 2; st_uid = pos 0; st_gid = pos 0; st_size = 0 }) start refl refl

abbrev copy_item : Item
copy_item = record {
  op = copy;
  src = some (lit "src/a.h");
  dst = none;
  dir = some (lit "/usr");
  owner = none;
  group = none;
  perm = pos 0o644;
}

ntran_copy-target_example :
    ntran_copy machine (install_platform_posix machine) copy_item fresh
    ≡ done (succeeded machine fresh, record copy_item { dst = some (lit "/usr/a.h") }) fresh
unfolding lit str_ends strcmp_eq
ntran_copy-target_example =
    ntran_copy-target machine copy_item fresh (lit "src/a.h") (lit "/usr")
      (lit "src" ++ (slash ∷ [])) (lit "a.h") 0 (below (lit "src")) (ground arith) (omega arith)
      refl refl refl (omega arith) (omega arith)

-- A state whose file has a name on its first line.
abbrev vlb : World Machine
vlb = record fresh { os = record fresh.os { input = lit "libx.so\nabout" } }

libname-word_example : Names (lit "libx.so") vlb (libname machine (some (lit "x.vlb")) vlb)
unfolding lit contains
libname-word_example =
    libname-word machine (lit "x.vlb") (lit "libx.so") (lit "\nabout") vlb
      (
        refl,
        refl,
        (refl, refl, (refl, refl, (refl, refl, (refl, refl, (refl, refl, (refl, refl, tt)))))),
      )
      refl refl refl (λ s. refl) (λ s. refl) refl

install_init-suffix_example :
    install_init machine
      (install_platform_posix machine)
      1
      1
      (some (lit "conf-sosuffix"))
      (install_fake_root none fresh)
    ≡ done
        (record status_init { status = ok })
        (record fresh {
          os = record start { input = [] };
          dlib_suffix = lit ".abc";
          next_stream = 1;
        })
unfolding lit contains suffix_of
install_init-suffix_example =
    install_init-suffix machine 1 1 (lit "conf-sosuffix") fresh refl refl refl refl
