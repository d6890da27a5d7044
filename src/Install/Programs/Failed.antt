-- ===== src/Install/Programs/Failed.antt =====
-- How the loop of instchk.c raises the count of failed files.
use coreland_c_string.Base.{
  ℕ, ◌+◌, ◌<◌, ◌≤◌, ◌^◌, ◌≡◌, inl, inr, ◌∙◌, subst, Bool, not, ◌&&◌, Bool-cases, if◌then◌else◌,
  arith, Option, none, some, List, [], ◌∷◌, Bytes, length, ℤ,
}
use coreland_c_string.Install.Header.{Item, Status, StatusCode, ok, error, fatal}
use coreland_c_string.Install.World.{World, Res, done, fault, Exit, next, leave, stop, Proc, ◌>>◌}
use coreland_c_string.Install.Os.{Os}
use coreland_c_string.Install.Posix.{install_platform_posix}
use coreland_c_string.Install.Platform.{Platform}
use coreland_c_string.Install.Operators.{is_ok}
use coreland_c_string.Install.Translate.{Translated}
use coreland_c_string.Install.Interface.{install_check}
use coreland_c_string.Install.Interface.Failures.{
  Counts, count_after, is_checked, install_check-Counts,
}
use coreland_c_string.Install.Programs.{run_items, dispatch}

-- The block ended with that count.
abbrev pub FailedExactly : {S A : Type 0} → ℕ → Exit S ℤ A → Type 0
FailedExactly n (next a w) = w.failed ≡ n
FailedExactly n (leave r w) = w.failed ≡ n
FailedExactly n (stop x) = Unit

-- One for a check that was made and failed.
abbrev pub one_if : Bool → Status → ℕ
one_if checked status = if checked && not (is_ok status) then 1 else 0

count-one_if :
    (k : ℕ) (checked : Bool) (status : Status)
    → k + 1 < 2 ^ 64
    → count_after k checked status ≡ k + one_if checked status
count-one_if k checked status small = elim (Bool-cases (checked && not (is_ok status))) [
  | inl fails ↦ rw (count_after, one_if, fails) (omega arith)
  | inr passes ↦ rw (count_after, one_if, passes) (omega arith)
]

one_if-le : (checked : Bool) (status : Status) → one_if checked status ≤ 1
one_if-le checked status = elim (Bool-cases (checked && not (is_ok status))) [
  | inl fails ↦ rw (one_if, fails) (omega arith)
  | inr passes ↦ rw (one_if, passes) (omega arith)
]

sum_assoc : (a b c : ℕ) → (a + b) + c ≡ a + (b + c)
sum_assoc a b c = omega arith

module _ {S : Type 0} (os : Os S) (writes fuel : ℕ) (progname : Bytes) where
  abbrev posix : Platform S
  posix = install_platform_posix os

  -- How many of the items fail their check before the loop ends.
  unfoldable pub failures : List Item → World S → ℕ
  failures [] w = 0
  failures (item ∷ items) w = elim (install_check os posix writes fuel item w) [
    | done t v ↦
        one_if (is_checked os writes fuel item w) t.0
        + elim (dispatch os posix writes fuel progname t.0 v) [
          | next _ u ↦ failures items u
          | leave r u ↦ 0
          | stop x ↦ 0
        ]
    | fault x ↦ 0
  ]

  dispatch-FailedExactly :
      (code : StatusCode) (message text : Option Bytes) (rest : Proc S ℤ (Unit {0}))
      (more : World S → ℕ) (n : ℕ) (v : World S)
      → v.failed ≡ n
      → ((u : World S) → u.failed ≡ n → FailedExactly (n + more u) (rest u))
      → let status : Status = record { status = code; message = message; error_message = text } in
        FailedExactly
          (n + elim (dispatch os posix writes fuel progname status v) [
            | next _ u ↦ more u
            | leave r u ↦ 0
            | stop x ↦ 0
          ])
          ((dispatch os posix writes fuel progname status >> rest) v)
  dispatch-FailedExactly ok message text rest more n v at h = h v at
  dispatch-FailedExactly error none text rest more n v at h = tt
  dispatch-FailedExactly error (some m) text rest more n v at h = h _ at
  dispatch-FailedExactly fatal none text rest more n v at h = tt
  dispatch-FailedExactly fatal (some m) text rest more n v at h = omega arith

  -- What follows the check of an item, for either end of that call.
  after_item :
      (r : Res S Translated) (rest : Proc S ℤ (Unit {0})) (more : World S → ℕ) (checked : Bool)
      (k : ℕ)
      → Counts k checked r
      → k + 1 < 2 ^ 64
      → ((b : ℕ) (u : World S) → b ≤ 1 → u.failed ≡ k + b → FailedExactly (k + b + more u) (rest u))
      → FailedExactly
          (k + elim r [
            | done t v ↦ one_if checked t.0 + elim (dispatch os posix writes fuel progname t.0 v) [
              | next _ u ↦ more u
              | leave _ u ↦ 0
              | stop x ↦ 0
            ]
            | fault x ↦ 0
          ])
          (elim (elim r as (λ _. Exit S ℤ Translated) [ done a v ↦ next a v | fault x ↦ stop x ]) [
            | next a v ↦ (dispatch os posix writes fuel progname a.0 >> rest) v
            | leave t v ↦ leave t v
            | stop x ↦ stop x
          ])
  after_item (fault x) rest more checked k counts small h = tt
  after_item (done t v) rest more checked k counts small h =
      let b = one_if checked t.0 in
      let end : Exit S ℤ (Unit {0}) = (dispatch os posix writes fuel progname t.0 >> rest) v in
      subst (λ n. FailedExactly n end) (sum_assoc k b _)
        (dispatch-FailedExactly t.0.status t.0.message t.0.error_message rest more (k + b) v
          (counts ∙ count-one_if k checked t.0 small) (λ u at. h b u (one_if-le checked t.0) at))

  -- On a POSIX system the loop of instchk over a list of items, from a count of failed files that
  -- stays below 2^64 when one is added for each item, has raised the count by the number of items
  -- whose names were translated, whose owner was found and whose file failed its check, of those
  -- that it came to: however it ends short of a fault.
  pub run_items-failures :
      (items : List Item) (w : World S)
      → w.failed + length items < 2 ^ 64
      → FailedExactly (w.failed + failures items w) (
          run_items os
            (install_platform_posix os)
            writes
            fuel
            progname
            (λ item. install_check os (install_platform_posix os) writes fuel item)
            items
            w)
  unfolding run_items failures
  run_items-failures [] w small = omega arith
  run_items-failures (item ∷ items) w small =
      after_item (install_check os posix writes fuel item w)
        (run_items os posix writes fuel progname (λ item. install_check os posix writes fuel item)
          items)
        (failures items) (is_checked os writes fuel item w) w.failed
        (install_check-Counts os writes fuel item w) (omega arith)
        (λ b u le at.
          subst
            (λ n. FailedExactly (n + failures items u) (
              run_items os posix writes fuel progname
                (λ item. install_check os posix writes fuel item) items u))
            at (run_items-failures items u (omega arith)))
