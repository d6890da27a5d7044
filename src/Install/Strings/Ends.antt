-- ===== src/Install/Strings/Ends.antt =====
-- What str_ends of install-core.c decides.
use coreland_c_string.Base.{
  ℕ, ◌-◌, ◌≡◌, refl, sym, ap, ◌∙◌, ◌↔◌, true, ◌++◌, Bytes, length, take, drop, length-append,
  drop-append, take-append-drop, strcmp_eq, strcmp_eq_iff, arith, ltb, if◌then◌else◌,
}
use coreland_c_string.Install.Strings.{str_ends}

-- The place at which the comparison begins.
abbrev start : Bytes → Bytes → ℕ
start s end = length s - (if ltb (length s) (length end) then length s else length end)

str_ends-eq : (s end : Bytes) → str_ends s end ≡ strcmp_eq (drop (start s end) s) end
unfolding str_ends
str_ends-eq s end = refl

ends-start : (p end : Bytes) → start (p ++ end) end ≡ length p
ends-start p end = ground (arith, length-append {0} p end)

-- str_ends holds exactly when the text is some text followed by the ending.
pub str_ends_iff : (s end : Bytes) → (str_ends s end ≡ true) ↔ ((p : Bytes) × (s ≡ p ++ end))
str_ends_iff s end = (
  λ h. (
    take (start s end) s,
    let same : drop (start s end) s ≡ end =
          (strcmp_eq_iff (drop (start s end) s) end).0 (sym (str_ends-eq s end) ∙ h) in
        sym (take-append-drop (start s end) s) ∙ ap (λ r. take (start s end) s ++ r) same,
  ),
  λ (p, e). rw e (
      str_ends-eq (p ++ end) end
      ∙ rw (ends-start p end, drop-append p end) ((strcmp_eq_iff end end).1 refl)),
)
