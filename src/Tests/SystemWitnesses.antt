-- ===== src/Tests/SystemWitnesses.antt =====
-- The theorems on signals and locks, at small systems.
use apcu.Prelude.{
  ℕ, suc, ◌-◌, ◌≡◌, refl, true, false, Option, none, some, List, [], ◌∷◌, ◌==◌, ==_iff, ap, sym,
  ◌∙◌, Bool-cases, inl, inr, ◌⊎◌, if◌then◌else◌, arith,
}
use mathlib.Core.Path.{subst}
use apcu.Signal.{SigAction, function, sig_dfl, Kernel, SignalInfo, no_signals, set_signals}
use apcu.Signal.Saved.{registered, Chained, own_handler, all_signals}
use apcu.Signal.Chain.{set_signals-chains}
use apcu.Lock.{
  Interruptions, Pthread, native_rwlock, lock_wlock, lock_rlock, wunlock_macro, runlock_macro,
  apc_mutex_lock, apc_mutex_unlock,
}
use apcu.Lock.Balance.{released, lock-balances}
use apcu.Lock.Spin.{
  at, lock_try, lock_create, Spin, holding, Reach, start, later, begin_get, try_get, get_round,
  spin-excludes,
}

abbrev System : Type 0
System = ℕ → Option SigAction

-- The action of signal 9 can be read, and not be replaced.
abbrev kernel : Kernel System
kernel = record {
  get_action = λ n s. s n;
  set_action = λ n a s. if n == 9 then (false, s) else (true, λ m. if n == m then some a else s m);
}

-- signal 6 has a handler, 7 is not known
abbrev system : System
system n =
    if n == 7
    then none
    else some (record {
      sa_handler = if n == 6 then function 3 else sig_dfl;
      sa_siginfo = true;
      sa_oneshot = false;
      sa_flags = 0;
      sa_mask = [];
    })

-- 6 under two names
abbrev core : List ℕ
core = 11 ∷ 6 ∷ 7 ∷ 6 ∷ []

set_signals-chains_example :
    (r : SignalInfo × System) × (set_signals kernel (some 10) true core no_signals system ≡ some r)
    × Chained kernel (own_handler (some 10)) (all_signals (some 10) core) system r
unfolding registered all_signals
set_signals-chains_example =
    set_signals-chains kernel (some 10) core system
      (λ n m a b t mine e. elim (Bool-cases (n == 9)) [
        | inl killed ↦
            let nine : n ≡ 9 = (==_iff n 9).0 killed in
            let unlisted : registered (10 ∷ core) n ≡ false = ap (registered (10 ∷ core)) nine in
            let clash : false ≡ true = sym unlisted ∙ mine in cc (clash)
        | inr other ↦ rw other refl
      ])
      (λ u e. let h : 10 ≡ u = cc in subst (λ n. registered core n ≡ false) h refl)

abbrev php : Interruptions ℕ
php = record { block = suc; unblock = λ n. n - 1; warning = λ n. n }

-- a lock is the number of its holders
abbrev pthread : Pthread ℕ
pthread = record {
  rwlock_rdlock = λ l. (0, suc l);
  rwlock_wrlock = λ l. (l, 1);
  rwlock_unlock = λ l. l - 1;
  mutex_lock = λ l. (l, 1);
  mutex_unlock = λ l. 0;
}

lock-balances_example :
    ((lock_wlock php (native_rwlock pthread) 4 0).0 ≡ true)
    × (released
          (λ q m. (wunlock_macro php (native_rwlock pthread) q m).0)
          (lock_wlock php (native_rwlock pthread) 4 0)
        ≡ 4)
    × ((lock_rlock php (native_rwlock pthread) 4 0).0 ≡ true)
    × (released
          (λ q m. (runlock_macro php (native_rwlock pthread) q m).0)
          (lock_rlock php (native_rwlock pthread) 4 0)
        ≡ 4)
    × ((apc_mutex_lock php pthread 4 0).0 ≡ true)
    × (released (λ q m. (apc_mutex_unlock php pthread q m).1.0) (apc_mutex_lock php pthread 4 0)
        ≡ 4)
unfolding native_rwlock
lock-balances_example = lock-balances php (native_rwlock pthread) pthread 4 0 (λ q. omega arith)

-- process 0 holds the lock, and process 1 tries to
contended : (s : Spin) × Reach s
unfolding at get_round lock_try lock_create
contended = (_, later (later (later start (begin_get 0 refl)) (try_get 0 refl)) (begin_get 1 refl))

spin-excludes_example :
    ((i j : ℕ) → contended.0.pc i ≡ holding → contended.0.pc j ≡ holding → i ≡ j)
    × ((i : ℕ)
        → ((get_round i contended.0).pc i ≡ holding) ⊎ ((j : ℕ) × (contended.0.pc j ≡ holding)))
spin-excludes_example = spin-excludes contended.1
