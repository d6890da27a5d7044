-- ===== src/Tests/Conf.antt =====
-- The theorems of c_string-conf.c at concrete data.
use coreland_c_string.Base.{◌≡◌, refl, some, List, [], ◌∷◌, Bytes, pos, lit, strcmp_eq}
use coreland_c_string.Base.Bits.{each}
use coreland_c_string.Install.Programs.{Ctxt}
use coreland_c_string.Conf.{conf_main}
use coreland_c_string.Conf.Asked.{given, AreArguments, no_nul-NoNul}
use coreland_c_string.Conf.Printed.{conf_main-described}
use coreland_c_string.Conf.Compare.{str_diff}
use coreland_c_string.Conf.Compare.Laws.{first_difference, str_diff-eq-first_difference}

str_diff_example :
    str_diff (lit "help") (lit "hello") ≡ some (first_difference (lit "help") (lit "hello"))
str_diff_example = str_diff-eq-first_difference (lit "help") (lit "hello")

abbrev ctxt : Ctxt
ctxt = record {
  bindir = lit "/bin";
  incdir = lit "/include";
  dlibdir = lit "/lib";
  slibdir = lit "/lib";
  repos = [];
  version = lit "1.0";
  fakeroot = [];
}

abbrev arguments : List Bytes
arguments = lit "newline" ∷ lit "incdir" ∷ lit "compile" ∷ lit "newline" ∷ []

arguments-AreArguments : AreArguments arguments
unfolding lit each
arguments-AreArguments = (
  no_nul-NoNul (lit "newline") refl,
  (
    no_nul-NoNul (lit "incdir") refl,
    (no_nul-NoNul (lit "compile") refl, (no_nul-NoNul (lit "newline") refl, tt)),
  ),
)

conf_main-described_example :
    conf_main ctxt (pos 0) arguments
    ≡ (record { text = lit "-I/include \n"; exited = some (pos 0) })
unfolding lit given strcmp_eq
conf_main-described_example = conf_main-described ctxt (pos 0) arguments arguments-AreArguments
