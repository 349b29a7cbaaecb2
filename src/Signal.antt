-- ===== src/Signal.antt =====
-- The signal handlers of apc_signal.c. `sigaction` is the system's: `Kernel` has its two uses.
pub mod Saved
pub mod Register
pub mod Chain
use apcu.Prelude.{
  ℕ, zero, suc, Bool, true, false, not, Option, none, some, List, [], ◌∷◌, ◌++◌, ◌&&◌, ◌==◌,
  if◌then◌else◌, ◌>>=◌,
}

-- the values of `sa_handler`: `SIG_ERR`, `SIG_DFL`, `SIG_IGN`, the two handlers of this file, and
-- other functions
pub data Handler : Type 0 where
  sig_err : Handler
  sig_dfl : Handler
  sig_ign : Handler
  apc_core_unmap : Handler
  apc_clear_cache : Handler
  function : ℕ → Handler

pub same_handler : Handler → Handler → Bool
same_handler sig_err sig_err = true
same_handler sig_dfl sig_dfl = true
same_handler sig_ign sig_ign = true
same_handler apc_core_unmap apc_core_unmap = true
same_handler apc_clear_cache apc_clear_cache = true
same_handler (function f) (function g) = f == g
same_handler _ _ = false

-- neither `SIG_ERR` nor `SIG_DFL` nor `SIG_IGN`
pub is_function : Handler → Bool
is_function sig_err = false
is_function sig_dfl = false
is_function sig_ign = false
is_function _ = true

-- `struct sigaction`: the handler, the flags `SA_SIGINFO` and `SA_ONESHOT`, the other flags and
-- the mask
pub record SigAction : Type 0 where
  pub sa_handler : Handler
  pub sa_siginfo : Bool
  pub sa_oneshot : Bool
  pub sa_flags : ℕ
  pub sa_mask : List ℕ

-- `sigaction` with a null action, which may fail, and with an action
pub record Kernel (S : Type 0) : Type 0 where
  pub get_action : ℕ → S → Option SigAction
  pub set_action : ℕ → SigAction → S → Bool × S

-- `apc_signal_entry_t`
pub record SignalEntry : Type 0 where
  pub signo : ℕ
  pub siginfo : Bool
  pub handler : Handler

-- `apc_signal_info`: `installed` is the number of entries of `prev`. `freed` is a `prev` that
-- points to memory that was released.
pub record SignalInfo : Type 0 where
  pub prev : List SignalEntry
  pub freed : Bool

-- `apc_signal_info` at the start of the program
abbrev pub no_signals : SignalInfo
no_signals = record { prev = []; freed = false }

pub nothing_installed : SignalInfo → Bool
nothing_installed info = elim info.prev [ [] ↦ true | e ∷ es ↦ false ]

-- where a handler was there: the entry for it; `none` is the use of released memory
pub save_handler : SignalEntry → SignalInfo → Option SignalInfo
save_handler p_sig info =
    if info.freed then none else some (record info { prev = info.prev ++ (p_sig ∷ []) })

-- The action that is put in place, in a system with `SA_ONESHOT` or `SA_RESETHAND`: the assignment
-- of that flag takes `SA_SIGINFO` away again.
pub new_action : SigAction → Handler → SigAction
unfolding is_function
new_action sa h = if is_function sa.sa_handler then record sa { sa_handler = h } else record {
  sa_handler = h;
  sa_siginfo = false;
  sa_oneshot = true;
  sa_flags = 0;
  sa_mask = [];
}

module _ {S : Type 0} (kernel : Kernel S) where
  -- whether it succeeds (a failure to install is a warning), the saved handlers and the system
  pub register_signal : ℕ → Handler → SignalInfo → S → Option (Bool × (SignalInfo × S))
  unfolding same_handler is_function save_handler new_action
  register_signal signo h info s = elim (kernel.get_action signo s) [
    | none ↦ some (false, (info, s))
    | some sa ↦
        let s' = (kernel.set_action signo (new_action sa h) s).1 in
        if same_handler sa.sa_handler h
        then some (true, (info, s))
        else if is_function sa.sa_handler
        then (save_handler
              (record { signo = signo; siginfo = sa.sa_siginfo; handler = sa.sa_handler }) info
            >>= λ (kept : SignalInfo). some (true, (kept, s')))
        else some (true, (info, s'))
  ]

  -- the registrations of `apc_core_unmap`, one for each signal that the system has
  pub register_core : List ℕ → SignalInfo → S → Option (SignalInfo × S)
  unfolding register_signal
  register_core [] info s = some (info, s)
  register_core (n ∷ ns) info s =
      register_signal n apc_core_unmap info s >>= λ (r : Bool × (SignalInfo × S)).
      register_core ns r.1.0 r.1.1

  -- `clear_signal` is `SIGUSR1` in a build with `APC_CLEAR_SIGNAL`, `core_signals` are the signals
  -- that dump core in the order of the source, some perhaps twice under two names.
  pub set_signals :
      (clear_signal : Option ℕ) (coredump_unmap : Bool) (core_signals : List ℕ)
      → SignalInfo
      → S
      → Option (SignalInfo × S)
  unfolding nothing_installed register_signal register_core
  set_signals clear_signal coredump_unmap core_signals info s =
      let first : Option (SignalInfo × S) = elim clear_signal [
        | none ↦ some (info, s)
        | some n ↦
            register_signal n apc_clear_cache info s >>= λ (r : Bool × (SignalInfo × S)). some r.1
      ] in
      if nothing_installed info
      then (first >>= λ (r : SignalInfo × S).
          if coredump_unmap then register_core core_signals r.0 r.1 else some r)
      else some (info, s)

unfoldable shutdown_signals : SignalInfo → SignalInfo
unfolding nothing_installed
shutdown_signals info = if nothing_installed info then info else record { prev = []; freed = true }

-- What a handler does: the functions that it calls, with `siginfo` and `context` or with the number
-- alone, and the signals that it sends to its own process.
pub data Effect : Type 0 where
  call_siginfo : Handler → ℕ → Effect
  call : Handler → ℕ → Effect
  kill : ℕ → Effect

pub call_entry : SignalEntry → ℕ → Effect
call_entry p_sig signo =
    if p_sig.siginfo then call_siginfo p_sig.handler signo else call p_sig.handler signo

-- the loop of `apc_rehandle_signal`, where `current` is `p_sig.signo`
pub rehandle_loop : List SignalEntry → (current signo : ℕ) → List Effect
unfolding call_entry
rehandle_loop [] current signo = []
rehandle_loop (p_sig ∷ rest) current signo =
    let later = rehandle_loop rest p_sig.signo signo in
    if current == signo
    then []
    else if p_sig.signo == signo
    then call_entry p_sig signo ∷ later
    else later

pub rehandle_signal : SignalInfo → ℕ → List Effect
unfolding rehandle_loop
rehandle_signal info signo = rehandle_loop info.prev 0 signo

-- The two handlers: `detach` and `clear` are what they do to the cache, if there is one.
module _ {C : Type 0} where
  unfoldable core_unmap : (detach : C → C) → SignalInfo → ℕ → Option C → Option C × List Effect
  unfolding rehandle_signal
  core_unmap detach info signo cache = (
    elim cache [ none ↦ none | some c ↦ some (detach c) ],
    rehandle_signal info signo ++ (kill signo ∷ []),
  )

  unfoldable clear_cache : (clear : C → C) → SignalInfo → ℕ → Option C → Option C × List Effect
  unfolding rehandle_signal
  clear_cache clear info signo cache = (
    elim cache [ none ↦ none | some c ↦ some (clear c) ],
    rehandle_signal info signo ++ (kill signo ∷ []),
  )
