-- ===== src/Lock/Spin.antt =====
-- The spin lock (a build with `APC_SPIN_LOCK`): processes that take and release it in any order.
use apcu.Prelude.{
  ℕ, ◌≡◌, refl, sym, ap, ◌∙◌, Bool, true, false, ◌==◌, ==_iff, ◌⊎◌, inl, inr, if◌then◌else◌,
  Bool-cases, arith,
}
use mathlib.Core.Path.{subst}

-- `apc_lock_try`: the word is exchanged with 1, and the answer is what it was
unfoldable pub lock_try : ℕ → ℕ × ℕ
lock_try state = (state, 1)

-- `apc_lock_release`: with 0
pub lock_release : ℕ → Bool × ℕ
lock_release state = (state == 0, 0)

-- `apc_lock_create`
unfoldable pub lock_create : ℕ
lock_create = 0

-- where a process stands: outside, in the loop of `apc_lock_get`, or behind it
pub data Pc : Type 0 where
  outside : Pc
  getting : Pc
  holding : Pc

pub record Spin : Type 0 where
  state : ℕ
  pub pc : ℕ → Pc

unfoldable pub at : ℕ → Pc → (ℕ → Pc) → ℕ → Pc
at i c pc j = if j == i then c else pc j

-- one round of the loop of `apc_lock_get` by a process, which leaves it when the answer is 0
unfoldable pub get_round : ℕ → Spin → Spin
unfolding lock_try at
get_round i s =
    let r = lock_try s.state in
    record { state = r.1; pc = at i (if r.0 == 0 then holding else getting) s.pc }

pub data Step (s : Spin) : Spin → Type 0 where
  begin_get : (i : ℕ) → s.pc i ≡ outside → Step s (record s { pc = at i getting s.pc })
  try_get : (i : ℕ) → s.pc i ≡ getting → Step s (get_round i s)
  release :
      (i : ℕ)
      → s.pc i ≡ holding
      → Step s (record { state = (lock_release s.state).1; pc = at i outside s.pc })

pub data Reach : Spin → Type 0 where
  start : Reach (record { state = lock_create; pc = λ i. outside })
  later : {s t : Spin} → Reach s → Step s t → Reach t

-- Either the lock is free and nobody holds it, or one process holds it.
Inv : Spin → Type 0
Inv s =
    ((s.state ≡ 0) × ((i : ℕ) → s.pc i ≡ holding → ⊥))
    ⊎ ((i : ℕ) × (s.state ≡ 1) × (s.pc i ≡ holding) × ((j : ℕ) → s.pc j ≡ holding → j ≡ i))

at_here : (i : ℕ) (c : Pc) (pc : ℕ → Pc) → at i c pc i ≡ c
unfolding at
at_here i c pc = rw ((==_iff i i).1 refl) refl

at_there : (i : ℕ) (c : Pc) (pc : ℕ → Pc) (j : ℕ) → (j == i) ≡ false → at i c pc j ≡ pc j
unfolding at
at_there i c pc j e = rw e refl

-- a process that is not put behind the loop is where it was, if it holds the lock
still :
    (i : ℕ) (c : Pc) (pc : ℕ → Pc) (j : ℕ)
    → (c ≡ holding → ⊥)
    → at i c pc j ≡ holding
    → (pc j ≡ holding) × ((j == i) ≡ false)
still i c pc j no_holder h = elim (Bool-cases (j == i)) [
  | inl e ↦ absurd (no_holder (sym (at_here i c pc) ∙ ap (at i c pc) (sym ((==_iff j i).0 e)) ∙ h))
  | inr e ↦ (sym (at_there i c pc j e) ∙ h, e)
]

apart :
    (i j : ℕ) (pc : ℕ → Pc) (c : Pc)
    → pc i ≡ c
    → pc j ≡ holding
    → (c ≡ holding → ⊥)
    → (j == i) ≡ false
apart i j pc c at_i at_j other = elim (Bool-cases (j == i)) [
  | inl e ↦ absurd (other (sym at_i ∙ ap pc (sym ((==_iff j i).0 e)) ∙ at_j))
  | inr e ↦ e
]

getting_other : getting ≡ holding → ⊥
getting_other e = cc

outside_other : outside ≡ holding → ⊥
outside_other e = cc

alone :
    (i : ℕ) (pc : ℕ → Pc)
    → ((j : ℕ) → pc j ≡ holding → ⊥)
    → (j : ℕ) → at i holding pc j ≡ holding
    → j ≡ i
alone i pc none_holds j h = elim (Bool-cases (j == i)) [
  | inl e ↦ (==_iff j i).0 e
  | inr e ↦ absurd (none_holds j (sym (at_there i holding pc j e) ∙ h))
]

clash : false ≡ true → ⊥
clash e = ground arith

Step-Inv : (s t : Spin) → Inv s → Step s t → Inv t
unfolding Inv get_round lock_try lock_release
Step-Inv s t (inl (free, none_holds)) (begin_get i e) =
    inl (free, λ j h. none_holds j (still i getting s.pc j getting_other h).0)
Step-Inv s t (inr (i, taken, holds, one)) (begin_get k e) = inr (
  i,
  taken,
  at_there k getting s.pc i (apart k i s.pc outside e holds outside_other) ∙ holds,
  λ j h. one j (still k getting s.pc j getting_other h).0,
)
Step-Inv s t (inl (free, none_holds)) (try_get i e) =
    subst
      (λ (b : Bool). Inv (record { state = 1; pc = at i (if b then holding else getting) s.pc }))
      (sym (ap (λ n. n == 0) free))
      (inr (i, refl, at_here i holding s.pc, λ j h. alone i s.pc none_holds j h))
Step-Inv s t (inr (i, taken, holds, one)) (try_get k e) =
    subst
      (λ (b : Bool). Inv (record { state = 1; pc = at k (if b then holding else getting) s.pc }))
      (sym (ap (λ n. n == 0) taken))
      (inr (
        i,
        refl,
        at_there k getting s.pc i (apart k i s.pc getting e holds getting_other) ∙ holds,
        λ j h. one j (still k getting s.pc j getting_other h).0,
      ))
Step-Inv s t (inl (free, none_holds)) (release i e) = absurd (none_holds i e)
Step-Inv s t (inr (i, taken, holds, one)) (release k e) = inl (
  refl,
  λ j h.
      let (there, away) = still k outside s.pc j outside_other h in
      clash (sym away ∙ (==_iff j k).1 (one j there ∙ sym (one k e))),
)

Reach-Inv : {s : Spin} → Reach s → Inv s
unfolding Inv lock_create
Reach-Inv start = inl (refl, λ i e. outside_other e)
Reach-Inv (later {s} {t} r step) = Step-Inv s t (Reach-Inv r) step

-- In every state that processes reach from the creation of a spin lock, in any order of their steps,
-- at most one holds it; and for each process, the next round of its loop ends with the lock, or
-- another process holds it now.
pub spin-excludes :
    {s : Spin}
    → Reach s
    → ((i j : ℕ) → s.pc i ≡ holding → s.pc j ≡ holding → i ≡ j)
      × ((i : ℕ) → ((get_round i s).pc i ≡ holding) ⊎ ((j : ℕ) × (s.pc j ≡ holding)))
unfolding Inv get_round lock_try
spin-excludes {s} r = elim (Reach-Inv r) [
  | inl (free, none_holds) ↦ (
    λ i j h k. absurd (none_holds i h),
    λ i. inl (
        at_here i (if s.state == 0 then holding else getting) s.pc
        ∙ ap (λ n. if n == 0 then holding else getting) free),
  )
  | inr (i, taken, holds, one) ↦ (λ j k h l. one j h ∙ sym (one k l), λ j. inr (i, holds))
]
