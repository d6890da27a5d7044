-- ===== src/Conf/Asked.antt =====
-- Which flags parse_flags sets: those of the operators that are among the arguments.
use coreland_c_string.Base.{
  ℕ, ◌<◌, ◌==◌, ltb, lit, bit_or, Bool, true, false, ◌&&◌, ◌||◌, ◌⊎◌, inl, inr, List, [], ◌∷◌,
  Bytes, strcmp_eq, strcmp_eq_iff, Bool-cases, ◌≡◌, refl, sym, ap, ◌∙◌, subst, arith,
}
use coreland_c_string.Base.Bits.{
  nine_bits, elem, each, same_bool, same_bool_sound, has_bit, IsBit, or-has_bit, or-lt, or-zero,
  or_false, or_assoc,
}
use mathlib.Core.Bool.{true≢false}
use mathlib.Core.List.{Memᴰ}
use mathlib.Core.List.Memᴰ
use coreland_c_string.Conf.{Entry, flags, flag_value, parse_flags_loop}
use coreland_c_string.Conf.Compare.{str_diff_zero}
use coreland_c_string.Conf.Compare.Laws.{NoNul, str_diff_zero_iff}

-- Some argument is the name.
unfoldable pub given : Bytes → List Bytes → Bool
given name [] = false
given name (arg ∷ args) = strcmp_eq arg name || given name args

-- No argument has a NUL, as every argument of a process.
abbrev pub AreArguments : List Bytes → Type 0
AreArguments [] = Unit
AreArguments (arg ∷ args) = NoNul arg × AreArguments args

-- A table each of whose entries has a single bit and a name without NUL.
abbrev AreEntries : List Entry → Type 0
AreEntries [] = Unit
AreEntries (e ∷ es) = (IsBit e.val × NoNul e.flag) × AreEntries es

test-strcmp_eq :
    (arg name : Bytes) → NoNul arg → NoNul name → str_diff_zero arg name ≡ strcmp_eq arg name
test-strcmp_eq arg name no_nul no_nul' =
    let by_diff = str_diff_zero_iff arg name no_nul no_nul' in
    let by_text = strcmp_eq_iff arg name in
    elim (Bool-cases (strcmp_eq arg name)) [
      | inl same ↦ by_diff.1 (by_text.0 same) ∙ sym same
      | inr other ↦ elim (Bool-cases (str_diff_zero arg name)) [
        | inl same ↦ absurd (true≢false (sym (by_text.1 (by_diff.0 same)) ∙ other))
        | inr differs ↦ differs ∙ sym other
      ]
    ]

-- What an argument stands for: no entry, or one of them.
abbrev Unknown : Bytes → List Entry → Type 0
Unknown arg es = (flag_value es arg ≡ 0) × ((e : Entry) → Memᴰ e es → strcmp_eq arg e.flag ≡ false)

abbrev Known : Bytes → List Entry → Type 0
Known arg es = (e : Entry) × Memᴰ e es × (arg ≡ e.flag) × (flag_value es arg ≡ e.val) × IsBit e.val

value-cases :
    (es : List Entry) (arg : Bytes) → AreEntries es → NoNul arg → Unknown arg es ⊎ Known arg es
unfolding flag_value
value-cases [] arg all no_nul = inl (refl, λ e m. absurd (Memᴰ.not-nil m))
value-cases (e ∷ es) arg ((bit, plain), all) no_nul =
    let same = test-strcmp_eq arg e.flag no_nul plain in
    elim (Bool-cases (strcmp_eq arg e.flag)) [
      | inl known ↦
          inr (e, Memᴰ.head refl, (strcmp_eq_iff arg e.flag).0 known, rw (same, known) refl, bit)
      | inr other ↦ elim (value-cases es arg all no_nul) [
        | inl (none_set, differs) ↦ inl (
          rw (same, other) none_set,
          λ e' m. elim (Memᴰ.cases_cons m) [
            | inl here ↦ ap (λ x. strcmp_eq arg x.flag) here ∙ other
            | inr there ↦ differs e' there
          ],
        )
        | inr (found, there, named, value, is_bit) ↦
            inr (found, Memᴰ.tail there, named, rw (same, other) value, is_bit)
      ]
    ]

each-Memᴰ :
    {A : Type 0} (l : List A) (p : A → Bool) (x : A) → each l p ≡ true → Memᴰ x l → p x ≡ true
unfolding each
each-Memᴰ [] p x all m = absurd (Memᴰ.not-nil m)
each-Memᴰ (y ∷ l) p x all m = elim (Bool-cases (p y)) [
  | inl holds ↦ elim (Memᴰ.cases_cons m) [
    | inl here ↦ ap p here ∙ holds
    | inr there ↦ each-Memᴰ l p x (subst (λ b. (b && each l p) ≡ true) holds all) there
  ]
  | inr fails ↦ absurd (true≢false (sym (subst (λ b. (b && each l p) ≡ true) fails all)))
]

-- The table: single bits, and a name of its own for each.
abbrev no_nul : Bytes → Bool
no_nul text = each text (λ c. ltb 0 c)

pub both : (a b : Bool) → (a && b) ≡ true → (a ≡ true) × (b ≡ true)
both true true h = (refl, refl)
both true false h = cc
both false b h = cc

pub no_nul-NoNul : (text : Bytes) → no_nul text ≡ true → NoNul text
unfolding each
no_nul-NoNul [] h = tt
no_nul-NoNul (c ∷ cs) h =
    let (first, rest) = both (ltb 0 c) (no_nul cs) h in (ground arith, no_nul-NoNul cs rest)

abbrev is_entry : Entry → Bool
is_entry e = elem e.val nine_bits && no_nul e.flag

entries : (es : List Entry) → each es is_entry ≡ true → AreEntries es
unfolding each
entries [] h = tt
entries (e ∷ es) h =
    let (first, rest) = both (is_entry e) (each es is_entry) h in
    let (bit, plain) = both (elem e.val nine_bits) (no_nul e.flag) first in
    ((bit, no_nul-NoNul e.flag plain), entries es rest)

flags-AreEntries : AreEntries flags
unfolding flags each elem lit
flags-AreEntries = entries flags refl

abbrev names_alike : Entry → Entry → Bool
names_alike e e' = same_bool (strcmp_eq e.flag e'.flag) (e.val == e'.val)

names_table : each flags (λ e. each flags (names_alike e)) ≡ true
unfolding each flags same_bool strcmp_eq lit
names_table = refl

names-vals :
    (e e' : Entry) → Memᴰ e flags → Memᴰ e' flags → strcmp_eq e.flag e'.flag ≡ (e.val == e'.val)
names-vals e e' m m' = same_bool_sound _ _ (
    each-Memᴰ flags (names_alike e) e'
      (each-Memᴰ flags (λ e. each flags (names_alike e)) e names_table m) m')

-- What one argument adds.
arg-has_bit :
    (arg : Bytes) (e : Entry) (flag : ℕ)
    → NoNul arg
    → Memᴰ e flags
    → IsBit e.val
    → flag < 512
    → (has_bit (bit_or flag (flag_value flags arg)) e.val
        ≡ (has_bit flag e.val || strcmp_eq arg e.flag))
      × bit_or flag (flag_value flags arg) < 512
arg-has_bit arg e flag no_nul m is_bit small =
    elim (value-cases flags arg flags-AreEntries no_nul) [
      | inl (none_set, differs) ↦
          rw (none_set, or-zero flag small, differs e m) (or_false (has_bit flag e.val), small)
      | inr (found, there, named, value, found_bit) ↦
          rw (value, named, names-vals found e there m)
            (
              or-has_bit found.val e.val flag found_bit is_bit small,
              or-lt found.val flag found_bit small,
            )
    ]

-- After the loop a flag is set if it was, or if an argument is the name of its operator.
pub parse-has_bit :
    (args : List Bytes) (e : Entry) (flag : ℕ)
    → AreArguments args
    → Memᴰ e flags
    → IsBit e.val
    → flag < 512
    → has_bit (parse_flags_loop args flag) e.val ≡ (has_bit flag e.val || given e.flag args)
unfolding parse_flags_loop given
parse-has_bit [] e flag plain m is_bit small = or_false (has_bit flag e.val)
parse-has_bit (arg ∷ args) e flag (no_nul, plain) m is_bit small =
    let (one, less) = arg-has_bit arg e flag no_nul m is_bit small in
    parse-has_bit args e (bit_or flag (flag_value flags arg)) plain m is_bit less
    ∙ ap (λ b. b || given e.flag args) one
    ∙ or_assoc (has_bit flag e.val) (strcmp_eq arg e.flag) (given e.flag args)
