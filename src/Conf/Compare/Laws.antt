-- ===== src/Conf/Compare/Laws.antt =====
-- The unrolled loop of str_diff, against a comparison one character at a time.
use coreland_c_string.Base.{
  ℕ, zero, suc, ◌+◌, ◌-◌, negsuc, ◌<◌, ◌≤◌, ◌==◌, ==_iff, true, false, Option, some, [], ◌∷◌, ◌≡◌,
  refl, sym, ap, ◌∙◌, ◌↔◌, Bytes, ℤ, pos, sub_ℕ, ◌==ℤ◌, length, arith, if◌then◌else◌, Bool-cases,
  inl, inr,
}
use mathlib.Core.Bool.{true≢false}
use coreland_c_string.Conf.Compare.{
  char_at, advance, Scan, broken, going, compare_char, str_diff_loop, str_diff, str_diff_zero,
}

-- The difference of the characters at the first place where the texts differ or end.
pub first_difference : Bytes → Bytes → ℤ
first_difference [] t = sub_ℕ 0 (char_at t)
first_difference (c ∷ cs) t =
    let rest = first_difference cs (advance t) in
    if c == char_at t then (if c == 0 then sub_ℕ c (char_at t) else rest) else sub_ℕ c (char_at t)

-- What a scan comes to, and how much it has left to read.
finish : Scan → ℤ
unfolding first_difference
finish (broken d) = d
finish (going s t) = first_difference s t

left : Scan → ℕ
left (broken d) = 0
left (going s t) = length s + 1

finish-compare_char : (x : Scan) → finish (compare_char x) ≡ finish x
unfolding finish compare_char first_difference
finish-compare_char (broken d) = refl
finish-compare_char (going [] t) = ground arith
finish-compare_char (going (c ∷ cs) t) = ground arith

left-compare_char : (x : Scan) → left (compare_char x) ≤ left x
unfolding left compare_char
left-compare_char (broken d) = omega arith
left-compare_char (going [] t) = ground arith
left-compare_char (going (c ∷ cs) t) = ground arith

left-compare_char-lt : (s t : Bytes) → left (compare_char (going s t)) < length s + 1
unfolding left compare_char
left-compare_char-lt [] t = ground arith
left-compare_char-lt (c ∷ cs) t = ground arith

-- The scan after the four comparisons of a round.
after_round : Bytes → Bytes → Scan
after_round s t = compare_char (compare_char (compare_char (compare_char (going s t))))

finish-after_round : (s t : Bytes) → finish (after_round s t) ≡ first_difference s t
unfolding after_round finish
finish-after_round s t =
    finish-compare_char (compare_char (compare_char (compare_char (going s t))))
    ∙ finish-compare_char (compare_char (compare_char (going s t)))
    ∙ finish-compare_char (compare_char (going s t))
    ∙ finish-compare_char (going s t)

left-after_round : (s t : Bytes) → left (after_round s t) < length s + 1
unfolding after_round
left-after_round s t =
    let a = left-compare_char-lt s t in
    let b = left-compare_char (compare_char (going s t)) in
    let c = left-compare_char (compare_char (compare_char (going s t))) in
    let d = left-compare_char (compare_char (compare_char (compare_char (going s t)))) in
    omega arith

-- A round of the loop from what it leaves.
resume : ℕ → Scan → Option ℤ
resume fuel (broken d) = some d
resume fuel (going s t) = str_diff_loop fuel s t

str_diff_loop-suc :
    (fuel : ℕ) (s t : Bytes) → str_diff_loop (suc fuel) s t ≡ resume fuel (after_round s t)
unfolding str_diff_loop resume after_round
str_diff_loop-suc fuel s t =
    elim (compare_char (compare_char (compare_char (compare_char (going s t))))) [
      | broken d ↦ refl
      | going s' t' ↦ refl
    ]

resume-finish : (fuel : ℕ) (x : Scan) → left x ≤ fuel → resume fuel x ≡ some (finish x)
unfolding resume finish left
resume-finish fuel (broken d) h = refl
resume-finish zero (going s t) h = ground arith
resume-finish (suc fuel) (going s t) h =
    let l = left-after_round s t in
    str_diff_loop-suc fuel s t
    ∙ resume-finish fuel (after_round s t) (omega arith)
    ∙ ap some (finish-after_round s t)

-- str_diff ends, and returns the difference of the characters at the first place where the two
-- texts differ or end, as a comparison of one character at a time finds it.
pub str_diff-eq-first_difference : (s t : Bytes) → str_diff s t ≡ some (first_difference s t)
unfolding str_diff resume finish left
str_diff-eq-first_difference s t = resume-finish (length s + 1) (going s t) (omega arith)

-- No character of the text is NUL.
abbrev pub NoNul : Bytes → Type 0
NoNul [] = Unit
NoNul (c ∷ cs) = (0 < c) × NoNul cs

magnitude : ℤ → ℕ
magnitude (pos n) = n
magnitude (negsuc n) = n + 1

magnitude-sub_ℕ : (a b : ℕ) → magnitude (sub_ℕ a b) ≡ (a - b) + (b - a)
unfolding magnitude
magnitude-sub_ℕ a b = ground arith

sub_ℕ-zero : (a b : ℕ) → sub_ℕ a b ≡ pos 0 → a ≡ b
unfolding magnitude
sub_ℕ-zero a b h = let m = sym (magnitude-sub_ℕ a b) ∙ ap magnitude h in omega arith

sub_ℕ-self : (a : ℕ) → sub_ℕ a a ≡ pos 0
sub_ℕ-self a = ground arith

not_zero : (c : ℕ) → 0 < c → (c == 0) ≡ false
not_zero c h = ground arith

-- A step of the comparison that comes to 0 went on to the rest.
zero_step :
    (c d : ℕ) (rest : ℤ)
    → 0 < c
    → (if c == d then (if c == 0 then sub_ℕ c d else rest) else sub_ℕ c d) ≡ pos 0
    → (c ≡ d) × (rest ≡ pos 0)
zero_step c d rest h = elim (Bool-cases (c == d)) [
  | inl z ↦ rw (z, not_zero c h) λ e. ((==_iff c d).0 z, e)
  | inr z ↦
      rw z λ e. let same = sub_ℕ-zero c d e in absurd (true≢false (sym ((==_iff c d).1 same) ∙ z))
]

first_difference-zero : (s t : Bytes) → NoNul s → NoNul t → first_difference s t ≡ pos 0 → s ≡ t
unfolding first_difference
first_difference-zero [] [] hs ht e = refl
first_difference-zero [] (d ∷ ds) hs (pos_d, hds) e =
    let z = sub_ℕ-zero 0 d e in absurd (omega arith)
first_difference-zero (c ∷ cs) [] (pos_c, hcs) ht e =
    let (z, _) = zero_step c 0 (first_difference cs []) pos_c e in absurd (omega arith)
first_difference-zero (c ∷ cs) (d ∷ ds) (pos_c, hcs) (pos_d, hds) e =
    let (same, rest) = zero_step c d (first_difference cs ds) pos_c e in
    rw (same, first_difference-zero cs ds hcs hds rest) refl

first_difference_self : (s : Bytes) → first_difference s s ≡ pos 0
unfolding first_difference
first_difference_self [] = refl
first_difference_self (c ∷ cs) =
    let rest = first_difference_self cs in
    elim (Bool-cases (c == 0)) [
      | inl z ↦ rw (z, (==_iff c c).1 refl) (sub_ℕ-self c)
      | inr z ↦ rw (z, (==_iff c c).1 refl) rest
    ]

==ℤ-zero : (d : ℤ) → (d ==ℤ pos 0) ≡ true → d ≡ pos 0
==ℤ-zero (pos n) h = ap pos ((==_iff n 0).0 h)
==ℤ-zero (negsuc n) h = absurd (true≢false (sym h))

-- The test of parse_flags on an argument and a flag's name, texts without NUL, holds exactly when
-- they are the same.
pub str_diff_zero_iff : (s t : Bytes) → NoNul s → NoNul t → (str_diff_zero s t ≡ true) ↔ (s ≡ t)
unfolding str_diff_zero
str_diff_zero_iff s t hs ht =
    rw (str_diff_zero, str_diff-eq-first_difference s t)
      (
        λ h. first_difference-zero s t hs ht (==ℤ-zero (first_difference s t) h),
        λ e. rw (sym e, first_difference_self s) refl,
      )
