-- ===== src/Sysdeps/Locker/Mutex.antt =====
-- Any number of processes of sd-locker.c on one lock file, as a mutual exclusion.
use coreland_c_string.Base.{
  ℕ, ◌==◌, ==_iff, ◌≡◌, ◌≢◌, refl, sym, ap, ◌∙◌, subst, Bool, true, false, Option, none, some, ℤ,
  arith, Bool-cases, inl, inr, if◌then◌else◌,
}
use coreland_c_string.Sysdeps.Locker.Calls.{Prog}
use coreland_c_string.Sysdeps.Locker.Phases.{Phase, outside, inside, child, waiting, Keeps}
use coreland_c_string.Sysdeps.Locker.Run.{
  Event, locked_by, unlocked_by, forked, executed, waited, freed, Task, absent, process, command,
  zombie, System, set, release, becomes,
}

-- The lock as it is meant: free, held by a process, or held by a process whose child runs.
pub data Mode : Type 0 where
  free : Mode
  held : ℕ → Mode
  busy : ℕ → ℕ → Mode

-- A step of the mutual exclusion, by the event that is seen of it.
pub data MutexStep : Mode → Event → Mode → Type 0 where
  take : (p : ℕ) → MutexStep free (locked_by p) (held p)
  give : (p : ℕ) → MutexStep (held p) (unlocked_by p) free
  start : (p c : ℕ) → MutexStep (held p) (forked p c) (busy p c)
  execute : (p c : ℕ) → MutexStep (busy p c) (executed c) (busy p c)
  finish : (p c : ℕ) → MutexStep (busy p c) (waited p c) (held p)

-- What a process is to the lock.
pub data Role : Type 0 where
  calm holder kid : Role
  waiter : ℕ → Role

abbrev pub role : Mode → ℕ → Role
role free i = calm
role (held p) i = if i == p then holder else calm
role (busy p c) i = if i == p then waiter c else if i == c then kid else calm

abbrev pub mode_owner : Mode → Option ℕ
mode_owner free = none
mode_owner (held p) = some p
mode_owner (busy p c) = some p

abbrev pub phase_of : Role → Phase
phase_of calm = outside
phase_of holder = inside
phase_of kid = child
phase_of (waiter c) = waiting c

abbrev pub Fits : Role → Task → Type 0
Fits role (process p) = Keeps (phase_of role) p
Fits calm absent = Unit
Fits calm (zombie status) = Unit
Fits kid command = Unit
Fits kid (zombie status) = Unit
Fits role _ = ⊥

abbrev pub IsProper : Mode → Type 0
IsProper free = Unit
IsProper (held p) = Unit
IsProper (busy p c) = (c == p) ≡ false

-- The processes are as the mode says.
pub record Represents (m : Mode) (s : System) : Type 0 where
  pub owner : s.owner ≡ mode_owner m
  pub proper : IsProper m
  pub fits : (i : ℕ) → Fits (role m i) (s.tasks i)

-- A step of the mutual exclusion for an event, and none without one.
abbrev pub Moves : Mode → Option Event → Mode → Type 0
Moves m none m' = m ≡ m'
Moves m (some event) m' = MutexStep m event m'

-- The mutual exclusion follows a step of the processes that is seen as an event, or as none.
abbrev pub Follows : Mode → Option Event → System → Type 0
Follows m o t = (m' : Mode) × Moves m o m' × Represents m' t

pub ==_self : (i : ℕ) → (i == i) ≡ true
==_self i = (==_iff i i).1 refl

-- A task is changed to one that fits the role of another mode, in which the others keep theirs.
pub set-Fits :
    (m m' : Mode) (tasks : ℕ → Task) (i : ℕ) (task : Task)
    → ((j : ℕ) → Fits (role m j) (tasks j))
    → ((j : ℕ) → (j == i) ≡ false → role m' j ≡ role m j)
    → Fits (role m' i) task
    → (j : ℕ) → Fits (role m' j) (set tasks i task j)
set-Fits m m' tasks i task old same new j = elim (Bool-cases (j == i)) [
  | inl here' ↦ rw (here', (==_iff j i).0 here') new
  | inr there ↦ rw (there, same j there) (old j)
]

-- A step that keeps the mode.
pub stays :
    (m : Mode) (s : System) (i : ℕ) (task : Task)
    → Represents m s
    → Fits (role m i) task
    → Follows m none (becomes s i task)
stays m s i task h new = (
  m,
  refl,
  record {
    owner = h.owner;
    proper = h.proper;
    fits = set-Fits m m s.tasks i task h.fits (λ j _. refl) new;
  },
)

pub at_task :
    (m : Mode) (s : System) (i : ℕ) (task : Task)
    → Represents m s
    → s.tasks i ≡ task
    → Fits (role m i) task
at_task m s i task h e = subst (Fits (role m i)) e (h.fits i)

pub other_owner : (p i : ℕ) → (i == p) ≡ false → some p ≢ some i
other_owner p i other e = ground arith

-- The roles of a mode, for a process.
pub data RoleOf (m : Mode) (i : ℕ) : Type 0 where
  as_calm : role m i ≡ calm → mode_owner m ≢ some i → RoleOf m i
  as_holder : m ≡ held i → role m i ≡ holder → RoleOf m i
  as_waiter : (c : ℕ) → m ≡ busy i c → role m i ≡ waiter c → RoleOf m i
  as_kid : (p : ℕ) → m ≡ busy p i → role m i ≡ kid → mode_owner m ≢ some i → RoleOf m i

pub role_of : (m : Mode) (i : ℕ) → RoleOf m i
role_of free i = as_calm refl (λ e. cc)
role_of (held p) i = elim (Bool-cases (i == p)) [
  | inl same ↦ as_holder (ap held (sym ((==_iff i p).0 same))) (rw same refl)
  | inr other ↦ as_calm (rw other refl) (other_owner p i other)
]
role_of (busy p c) i = elim (Bool-cases (i == p)) [
  | inl same ↦ as_waiter c (ap (λ q. busy q c) (sym ((==_iff i p).0 same))) (rw same refl)
  | inr other ↦ elim (Bool-cases (i == c)) [
    | inl kid' ↦
        as_kid p (ap (busy p) (sym ((==_iff i c).0 kid'))) (rw (other, kid') refl)
          (other_owner p i other)
    | inr not_kid ↦ as_calm (rw (other, not_kid) refl) (other_owner p i other)
  ]
]

pub release_other : (o : Option ℕ) (i : ℕ) → o ≢ some i → release i o ≡ o
unfolding release
release_other none i h = refl
release_other (some p) i h = elim (Bool-cases (p == i)) [
  | inl same ↦ absurd (h (ap some ((==_iff p i).0 same)))
  | inr other ↦ rw other refl
]

pub freed_other : (o : Option ℕ) (i : ℕ) → o ≢ some i → freed i o ≡ none
unfolding freed
freed_other none i h = refl
freed_other (some p) i h = elim (Bool-cases (p == i)) [
  | inl same ↦ absurd (h (ap some ((==_iff p i).0 same)))
  | inr other ↦ rw other refl
]

freed_own : (i : ℕ) → freed i (some i) ≡ some (unlocked_by i)
unfolding freed
freed_own i = rw (==_self i) refl

pub release_own : (i : ℕ) → release i (some i) ≡ none
unfolding release
release_own i = rw (==_self i) refl

-- The holder gives the lock up.
pub lets_go :
    (s : System) (i : ℕ) (task : Task)
    → Represents (held i) s
    → Fits calm task
    → Follows (held i) (freed i s.owner) (record (becomes s i task) { owner = release i s.owner })
lets_go s i task h new = (
  free,
  subst (λ o. Moves (held i) o free) (sym (ap (freed i) h.owner ∙ freed_own i)) (give i),
  record {
    owner = ap (release i) h.owner ∙ release_own i;
    proper = tt;
    fits = set-Fits (held i) free s.tasks i task h.fits (λ j other. rw other refl) new;
  },
)

-- A step that releases whatever lock the process had.
pub releases :
    (m : Mode) (s : System) (i : ℕ) (task : Task)
    → Represents m s
    → (role m i ≡ calm → Fits calm task)
    → (role m i ≡ holder → Fits calm task)
    → (role m i ≡ kid → Fits kid task)
    → ((c : ℕ) → role m i ≢ waiter c)
    → Follows m (freed i s.owner) (record (becomes s i task) { owner = release i s.owner })
releases m s i task h at_calm at_holder at_kid no_waiter =
    let kept : (mode_owner m ≢ some i)
        → Fits (role m i) task
        → Follows m (freed i s.owner) (record (becomes s i task) { owner = release i s.owner }) =
      λ other new. (
        m,
        subst (λ o. Moves m o m) (sym (ap (freed i) h.owner ∙ freed_other (mode_owner m) i other))
            refl,
        record {
          owner = ap (release i) h.owner ∙ release_other (mode_owner m) i other;
          proper = h.proper;
          fits = set-Fits m m s.tasks i task h.fits (λ j _. refl) new;
        },
      ) in
    elim (role_of m i) [
      | as_calm is other ↦ kept other (subst (λ r. Fits r task) (sym is) (at_calm is))
      | as_holder e is ↦
          subst
            (λ x.
              Follows x (freed i s.owner) (record (becomes s i task) { owner = release i s.owner }))
            (sym e) (lets_go s i task (subst (λ x. Represents x s) e h) (at_holder is))
      | as_waiter c e is ↦ absurd (no_waiter c is)
      | as_kid p e is other ↦ kept other (subst (λ r. Fits r task) (sym is) (at_kid is))
    ]

-- A free lock is taken.
pub takes :
    (s : System) (i : ℕ) (p : Prog ℤ)
    → Represents free s
    → Keeps inside p
    → Follows free (some (locked_by i)) (record (becomes s i (process p)) { owner = some i })
takes s i p h new = (
  held i,
  take i,
  record {
    owner = refl;
    proper = tt;
    fits =
        set-Fits free (held i) s.tasks i (process p) h.fits (λ j other. rw other refl)
          (rw (==_self i) new);
  },
)

-- Two tasks are changed.
pub two-Fits :
    (m m' : Mode) (tasks : ℕ → Task) (i j : ℕ) (p q : Task)
    → ((k : ℕ) → Fits (role m k) (tasks k))
    → ((k : ℕ) → (k == i) ≡ false → (k == j) ≡ false → role m' k ≡ role m k)
    → Fits (role m' i) p
    → Fits (role m' j) q
    → (k : ℕ) → Fits (role m' k) (set (set tasks i p) j q k)
two-Fits m m' tasks i j p q old same at_i at_j k = elim (Bool-cases (k == j)) [
  | inl second ↦ rw (second, (==_iff k j).0 second) at_j
  | inr not_second ↦ elim (Bool-cases (k == i)) [
    | inl first ↦ rw (not_second, first, (==_iff k i).0 first) at_i
    | inr neither ↦ rw (not_second, neither, same k neither not_second) (old k)
  ]
]

pub absent_other : (b : Bool) → Fits (if b then holder else calm) absent → b ≡ false
absent_other true f = absurd f
absent_other false f = refl

-- The holder forks.
pub starts :
    (s : System) (i j : ℕ) (p q : Prog ℤ)
    → Represents (held i) s
    → s.tasks j ≡ absent
    → Keeps (waiting j) p
    → Keeps child q
    → Follows (held i) (some (forked i j)) (becomes (becomes s i (process p)) j (process q))
starts s i j p q h new at_parent at_child =
    let distinct : (j == i) ≡ false =
      absent_other (j == i) (subst (Fits (role (held i) j)) new (h.fits j)) in
    (
      busy i j,
      start i j,
      record {
        owner = h.owner;
        proper = distinct;
        fits =
            two-Fits (held i) (busy i j) s.tasks i j (process p) (process q) h.fits
              (λ k not_i not_j. rw (not_i, not_j) refl) (rw (==_self i) at_parent)
              (rw (distinct, ==_self j) at_child);
      },
    )

-- The child turns into the command.
pub turns :
    (s : System) (p i : ℕ)
    → Represents (busy p i) s
    → Fits (role (busy p i) i) command
    → Follows (busy p i) (some (executed i)) (becomes s i command)
turns s p i h new = (
  busy p i,
  execute p i,
  record {
    owner = h.owner;
    proper = h.proper;
    fits = set-Fits (busy p i) (busy p i) s.tasks i command h.fits (λ j _. refl) new;
  },
)

-- The parent has waited for the child.
pub finishes :
    (s : System) (i j : ℕ) (p : Prog ℤ)
    → Represents (busy i j) s
    → Keeps inside p
    → Follows (busy i j) (some (waited i j)) (becomes (becomes s j absent) i (process p))
finishes s i j p h new = (
  held i,
  finish i j,
  record {
    owner = h.owner;
    proper = tt;
    fits =
        two-Fits (busy i j) (held i) s.tasks j i absent (process p) h.fits
          (λ k not_j not_i. rw (not_i, not_j) refl) (rw h.proper tt) (rw (==_self i) new);
  },
)
