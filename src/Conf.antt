-- ===== src/Conf.antt =====
-- c_string-conf.c, the program that prints the flags to compile and link with.
pub mod Compare
pub mod Asked
pub mod Printed
use coreland_c_string.Base.{
  ℕ, suc, zero, ◌==◌, bit_and, bit_or, Bool, true, false, not, Option, none, some, List, [], ◌∷◌,
  ◌++◌, Bytes, ℤ, pos, negsuc, lit, String, if◌then◌else◌,
}
use coreland_c_string.Install.Programs.{Ctxt}
use coreland_c_string.Conf.Compare.{str_diff_zero}

-- The bits of `flag`.
abbrev pub flag_incdir_bit : ℕ
flag_incdir_bit = 0x0001

abbrev pub flag_dlibdir_bit : ℕ
flag_dlibdir_bit = 0x0002

abbrev pub flag_slibdir_bit : ℕ
flag_slibdir_bit = 0x0004

abbrev pub flag_newline_bit : ℕ
flag_newline_bit = 0x0008

abbrev pub flag_version_bit : ℕ
flag_version_bit = 0x0010

abbrev pub flag_compile_bit : ℕ
flag_compile_bit = 0x0020

abbrev pub flag_help_bit : ℕ
flag_help_bit = 0x0040

abbrev pub flag_cflags_bit : ℕ
flag_cflags_bit = 0x0080

abbrev pub flag_ldflags_bit : ℕ
flag_ldflags_bit = 0x0100

-- The functions of the table, by name.
pub data Func : Type 0 where
  help incdir cflags dlibdir slibdir ldflags version newline : Func

-- An entry of `flags`.
pub record Entry : Type 0 where
  pub flag : Bytes
  pub func : Option Func
  pub val : ℕ
  pub desc : Bytes

abbrev entry : String → Option Func → ℕ → String → Entry
entry flag func val desc = record { flag = lit flag; func = func; val = val; desc = lit desc }

unfoldable pub flags : List Entry
flags =
    entry "help" (some help) flag_help_bit "this message"
    ∷ entry "compile" none flag_compile_bit "modify output for use as compiler flags"
    ∷ entry "incdir" (some incdir) flag_incdir_bit "print include directory"
    ∷ entry "cflags" (some cflags) flag_cflags_bit "output required compiler flags"
    ∷ entry "dlibdir" (some dlibdir) flag_dlibdir_bit "print dynamic library directory"
    ∷ entry "slibdir" (some slibdir) flag_slibdir_bit "print static library directory"
    ∷ entry "ldflags" (some ldflags) flag_ldflags_bit "output required linker flags"
    ∷ entry "version" (some version) flag_version_bit "print library version"
    ∷ entry "newline" (some newline) flag_newline_bit "print trailing newline"
    ∷ []

-- What a run has printed, and its status if it has ended.
pub record Output : Type 0 where
  pub text : Bytes
  pub exited : Option ℤ

-- `flag & bit`
abbrev pub has : ℕ → ℕ → Bool
has flag bit = not (bit_and flag bit == 0)

abbrev pub usage : Bytes
usage = lit "c_string-conf: [help] ops ...\n"

unfoldable pub describe : List Entry → Bytes
describe [] = []
describe (e ∷ es) = e.flag ++ (lit " - " ++ (e.desc ++ (lit "\n" ++ describe es)))

-- What a function of the table prints; `help` also ends the program, with status 0.
unfoldable pub call_func : Ctxt → ℕ → Func → Output
unfolding flags describe
call_func ctxt flag help = record {
  text = usage ++ (lit "possible operators:\n" ++ describe flags);
  exited = some (pos 0);
}
call_func ctxt flag incdir = record {
  text = (if has flag flag_compile_bit then lit "-I" else []) ++ (ctxt.incdir ++ lit " ");
  exited = none;
}
call_func ctxt flag cflags = record { text = []; exited = none }
call_func ctxt flag dlibdir = record {
  text = (if has flag flag_compile_bit then lit "-L" else []) ++ (ctxt.dlibdir ++ lit " ");
  exited = none;
}
call_func ctxt flag slibdir = record {
  text = (if has flag flag_compile_bit then lit "-L" else []) ++ (ctxt.slibdir ++ lit " ");
  exited = none;
}
call_func ctxt flag ldflags = record { text = lit "-lc_string "; exited = none }
call_func ctxt flag version = record { text = ctxt.version ++ lit " "; exited = none }
call_func ctxt flag newline = record { text = lit "\n"; exited = none }

-- The inner loop of `parse_flags`: the value of the first entry with the argument's name.
unfoldable pub flag_value : List Entry → Bytes → ℕ
flag_value [] arg = 0
flag_value (e ∷ es) arg = if str_diff_zero arg e.flag then e.val else flag_value es arg

-- The outer loop of `parse_flags`.
unfoldable pub parse_flags_loop : List Bytes → ℕ → ℕ
unfolding flag_value flags
parse_flags_loop [] flag = flag
parse_flags_loop (arg ∷ args) flag = parse_flags_loop args (bit_or flag (flag_value flags arg))

-- One output after another: an exit ends the program.
abbrev pub followed_by : Output → Output → Output
followed_by first rest = elim first.exited [
  | none ↦ record { text = first.text ++ rest.text; exited = rest.exited }
  | some status ↦ first
]

-- The loop of `call_flags` over the rest of the table.
unfoldable pub call_flags_loop : Ctxt → ℕ → List Entry → Output
unfolding call_func
call_flags_loop ctxt flag [] = record { text = []; exited = none }
call_flags_loop ctxt flag (e ∷ es) =
    let rest = call_flags_loop ctxt flag es in
    if has flag e.val
    then (elim e.func [ none ↦ rest | some f ↦ followed_by (call_func ctxt flag f) rest ])
    else rest

-- `main` on the arguments behind the program's name; `flushed` is what `fflush (0)` returns.
unfoldable pub conf_main : Ctxt → ℤ → List Bytes → Output
unfolding parse_flags_loop call_flags_loop
conf_main ctxt flushed [] = record { text = usage; exited = some (pos 111) }
conf_main ctxt flushed (arg ∷ args) =
    followed_by (call_flags_loop ctxt (parse_flags_loop (arg ∷ args) 0) flags) (record {
      text = [];
      exited =
          some (elim flushed [ pos n ↦ (if n == 0 then pos 0 else pos 112) | negsuc n ↦ pos 112 ]);
    })
