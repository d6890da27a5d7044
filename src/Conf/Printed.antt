-- ===== src/Conf/Printed.antt =====
-- What c_string-conf prints for its arguments.
use coreland_c_string.Base.{
  ℕ, ◌==◌, Bool, true, false, ◌&&◌, ◌||◌, inl, inr, Option, none, some, List, [], ◌∷◌, ◌++◌,
  append-nil, Bytes, ℤ, pos, negsuc, ◌==ℤ◌, lit, String, Bool-cases, ◌≡◌, refl, ap, ◌∙◌,
  if◌then◌else◌, arith,
}
use coreland_c_string.Base.Bits.{elem, IsBit, has_none}
use mathlib.Core.List.{Memᴰ}
use coreland_c_string.Install.Programs.{Ctxt}
use coreland_c_string.Conf.{
  Entry, Func, help, incdir, cflags, dlibdir, slibdir, ldflags, version, newline, flags, Output,
  call_func, followed_by, flag_compile_bit, flag_incdir_bit, flag_cflags_bit, usage,
  call_flags_loop, parse_flags_loop, conf_main, has,
}
use coreland_c_string.Conf.Asked.{both, given, AreArguments, parse-has_bit}

-- The text of an operator, where it is asked for.
abbrev pub asked : String → List Bytes → Bytes → Bytes
asked name args text = if given (lit name) args then text else []

-- With "compile" a directory is printed behind the flag that the compiler wants.
abbrev pub directory : String → List Bytes → Bytes → Bytes
directory flag args path = asked "compile" args (lit flag) ++ (path ++ lit " ")

-- The texts of the operators, each one at most once and in the order of the table.
abbrev pub all_asked : Ctxt → List Bytes → Bytes
all_asked ctxt args =
    asked "incdir" args (directory "-I" args ctxt.incdir)
    ++ (asked "dlibdir" args (directory "-L" args ctxt.dlibdir)
        ++ (asked "slibdir" args (directory "-L" args ctxt.slibdir)
            ++ (asked "ldflags" args (lit "-lc_string ")
                ++ (asked "version" args (ctxt.version ++ lit " ")
                    ++ asked "newline" args (lit "\n")))))

-- The help alone with status 0 where it is asked for, else the texts, and the status of the flush.
abbrev pub described : Ctxt → ℤ → List Bytes → Output
described ctxt flushed [] = record { text = usage; exited = some (pos 111) }
described ctxt flushed args = if given (lit "help") args then call_func ctxt 0 help else (record {
  text = all_asked ctxt args;
  exited = some (if flushed ==ℤ pos 0 then pos 0 else pos 112);
})

-- The text of a part of the table without "help".
func_text : Ctxt → ℕ → Option Func → Bytes
func_text ctxt flag none = []
func_text ctxt flag (some f) = (call_func ctxt flag f).text

texts : Ctxt → ℕ → List Entry → Bytes
texts ctxt flag [] = []
texts ctxt flag (e ∷ es) =
    (if has flag e.val then func_text ctxt flag e.func else []) ++ texts ctxt flag es

-- No function of the table but the one for "help" ends the program.
goes_on : Option Func → Bool
goes_on none = true
goes_on (some help) = false
goes_on (some _) = true

all_go_on : List Entry → Bool
all_go_on [] = true
all_go_on (e ∷ es) = goes_on e.func && all_go_on es

abbrev going : Bytes → Output
going text = record { text = text; exited = none }

func-texts :
    (ctxt : Ctxt) (flag : ℕ) (o : Option Func) (text : Bytes)
    → goes_on o ≡ true
    → (elim o [ none ↦ going text | some f ↦ followed_by (call_func ctxt flag f) (going text) ])
      ≡ going (func_text ctxt flag o ++ text)
unfolding goes_on call_func func_text
func-texts ctxt flag none text h = refl
func-texts ctxt flag (some help) text h = cc
func-texts ctxt flag (some incdir) text h = refl
func-texts ctxt flag (some cflags) text h = refl
func-texts ctxt flag (some dlibdir) text h = refl
func-texts ctxt flag (some slibdir) text h = refl
func-texts ctxt flag (some ldflags) text h = refl
func-texts ctxt flag (some version) text h = refl
func-texts ctxt flag (some newline) text h = refl

loop-texts :
    (ctxt : Ctxt) (flag : ℕ) (es : List Entry)
    → all_go_on es ≡ true
    → call_flags_loop ctxt flag es ≡ going (texts ctxt flag es)
unfolding call_flags_loop texts all_go_on
loop-texts ctxt flag [] h = refl
loop-texts ctxt flag (e ∷ es) h =
    let (first, more) = both (goes_on e.func) (all_go_on es) h in
    let step : Output → Output = λ rest.
      if has flag e.val
      then (elim e.func [ none ↦ rest | some f ↦ followed_by (call_func ctxt flag f) rest ])
      else rest in
    ap step (loop-texts ctxt flag es more) ∙ elim (Bool-cases (has flag e.val)) [
      | inl set ↦ rw set (func-texts ctxt flag e.func (texts ctxt flag es) first)
      | inr clear ↦ rw clear refl
    ]

-- The flags that are read, and the operators they stand for.
record Sets (flag : ℕ) (args : List Bytes) : Type 0 where
  at : (e : Entry) → Memᴰ e flags → IsBit e.val → has flag e.val ≡ given e.flag args

parsed-Sets : (args : List Bytes) → AreArguments args → Sets (parse_flags_loop args 0) args
parsed-Sets args plain = record {
  at = λ e m is_bit.
      parse-has_bit args e 0 plain m is_bit (omega arith)
      ∙ ap (λ b. b || given e.flag args) (has_none e.val is_bit);
}

-- The table behind "help".
abbrev tail_of : List Entry → List Entry
tail_of [] = []
tail_of (e ∷ es) = es

never : (b : Bool) (text : Bytes) → (if b then [] else []) ++ text ≡ text
never true text = refl
never false text = refl

texts-all_asked :
    (ctxt : Ctxt) (flag : ℕ) (args : List Bytes)
    → Sets flag args
    → texts ctxt flag (tail_of flags) ≡ all_asked ctxt args
unfolding texts func_text flags call_func elem
texts-all_asked ctxt flag args sets =
    let with_compile = sets.at _ (Memᴰ.tail (Memᴰ.head refl)) refl in
    let with_incdir = sets.at _ (Memᴰ.tail (Memᴰ.tail (Memᴰ.head refl))) refl in
    let with_dlibdir =
      sets.at _ (Memᴰ.tail (Memᴰ.tail (Memᴰ.tail (Memᴰ.tail (Memᴰ.head refl))))) refl in
    let with_slibdir =
      sets.at _ (Memᴰ.tail (Memᴰ.tail (Memᴰ.tail (Memᴰ.tail (Memᴰ.tail (Memᴰ.head refl)))))) refl in
    let with_ldflags =
      sets.at _
        (Memᴰ.tail (Memᴰ.tail (Memᴰ.tail (Memᴰ.tail (Memᴰ.tail (Memᴰ.tail (Memᴰ.head refl)))))))
        refl in
    let with_version =
      sets.at _
        (Memᴰ.tail
          (Memᴰ.tail (Memᴰ.tail (Memᴰ.tail (Memᴰ.tail (Memᴰ.tail (Memᴰ.tail (Memᴰ.head refl))))))))
        refl in
    let with_newline =
      sets.at _
        (Memᴰ.tail (
          Memᴰ.tail (
            Memᴰ.tail
              (Memᴰ.tail (Memᴰ.tail (Memᴰ.tail (Memᴰ.tail (Memᴰ.tail (Memᴰ.head refl)))))))))
        refl in
    never (has flag flag_compile_bit) _
    ∙ ap
        (λ more.
          (if has flag flag_incdir_bit
            then (if has flag flag_compile_bit then lit "-I" else []) ++ (ctxt.incdir ++ lit " ")
            else [])
          ++ more)
        (never (has flag flag_cflags_bit) _)
    ∙ rw
        (
          with_compile,
          with_incdir,
          with_dlibdir,
          with_slibdir,
          with_ldflags,
          with_version,
          with_newline,
          append-nil (asked "newline" args (lit "\n")),
        )
        refl

-- What the loop over the table prints.
abbrev loop_output : Ctxt → List Bytes → Output
loop_output ctxt args =
    if given (lit "help") args then call_func ctxt 0 help else going (all_asked ctxt args)

loop-described :
    (ctxt : Ctxt) (flag : ℕ) (args : List Bytes)
    → Sets flag args
    → call_flags_loop ctxt flag flags ≡ loop_output ctxt args
unfolding call_flags_loop call_func flags elem all_go_on goes_on
loop-described ctxt flag args sets =
    let with_help = sets.at _ (Memᴰ.head refl) refl in
    let rest =
      loop-texts ctxt flag (tail_of flags) refl ∙ ap going (texts-all_asked ctxt flag args sets) in
    rw with_help (ap (λ o. if given (lit "help") args then call_func ctxt flag help else o) rest)

abbrev leaves : ℤ → Output
leaves status = record { text = []; exited = some status }

-- Behind the loop a run ends with a status, if it has not ended in it.
followed-ended :
    (ctxt : Ctxt) (args : List Bytes) (status : ℤ)
    → followed_by (loop_output ctxt args) (leaves status) ≡ (
        if given (lit "help") args
        then call_func ctxt 0 help
        else (record { text = all_asked ctxt args; exited = some status }))
unfolding call_func
followed-ended ctxt args status = elim (Bool-cases (given (lit "help") args)) [
  | inl asks_help ↦ rw asks_help refl
  | inr other ↦
      rw other (
        ap (λ text. record { text = text; exited = some status })
          (append-nil (all_asked ctxt args)))
]

-- Without arguments c_string-conf prints its usage and ends with 111. Otherwise, for arguments
-- without NUL, it prints the help alone with status 0 where "help" is one of them, and else the
-- text of each operator that is one of them, once and in the order of the table, however often and
-- in whatever order they are given, and directories behind "-I" and "-L" exactly if "compile" is
-- one of them; other arguments change nothing, and the status is 112 where the flush fails.
pub conf_main-described :
    (ctxt : Ctxt) (flushed : ℤ) (args : List Bytes)
    → AreArguments args
    → conf_main ctxt flushed args ≡ described ctxt flushed args
unfolding conf_main
conf_main-described ctxt flushed [] plain = refl
conf_main-described ctxt (pos n) (arg ∷ args) plain =
    let sets = parsed-Sets (arg ∷ args) plain in
    let status = if n == 0 then pos 0 else pos 112 in
    ap (λ o. followed_by o (leaves status)) (loop-described ctxt _ (arg ∷ args) sets)
    ∙ followed-ended ctxt (arg ∷ args) status
conf_main-described ctxt (negsuc n) (arg ∷ args) plain =
    let sets = parsed-Sets (arg ∷ args) plain in
    ap (λ o. followed_by o (leaves (pos 112))) (loop-described ctxt _ (arg ∷ args) sets)
    ∙ followed-ended ctxt (arg ∷ args) (pos 112)
