-- ===== src/Signal/Saved.antt =====
-- The entry of a signal, and what one registration saves.
use apcu.Prelude.{
  ℕ, ◌≡◌, refl, sym, ap, ◌∙◌, Bool, true, false, Option, none, some, List, [], ◌∷◌, ◌++◌, ◌||◌,
  ◌==◌, ==_iff, if◌then◌else◌, Bool-cases, inl, inr,
}
use apcu.Signal.{
  Kernel, SignalInfo, rehandle_signal, apc_core_unmap, apc_clear_cache, Handler, apc_core_unmap,
  apc_clear_cache, function, sig_err, sig_dfl, sig_ign, same_handler, is_function, SigAction,
  SignalEntry, new_action, Effect, call_entry, rehandle_loop,
}

-- the first entry of a signal
unfoldable pub first_entry : List SignalEntry → ℕ → Option SignalEntry
first_entry [] n = none
first_entry (e ∷ es) n = if e.signo == n then some e else first_entry es n

-- what a signal is handed on to, where the table has an entry for it
unfoldable pub handed_on : Option SignalEntry → ℕ → List Effect
handed_on o n = elim o [ none ↦ [] | some e ↦ call_entry e n ∷ [] ]

unfoldable pub registered : List ℕ → ℕ → Bool
registered [] n = false
registered (q ∷ qs) n = q == n || registered qs n

-- the action that a registration of `h` leaves where it finds the first one
unfoldable pub taken_over : Option SigAction → Handler → Option SigAction
taken_over none h = none
taken_over (some sa) h = if same_handler sa.sa_handler h then some sa else some (new_action sa h)

-- and the entry that it makes
unfoldable pub saved : Option SigAction → Handler → ℕ → Option SignalEntry
saved none h n = none
saved (some sa) h n =
    if same_handler sa.sa_handler h
    then none
    else if is_function sa.sa_handler
    then some (record { signo = n; siginfo = sa.sa_siginfo; handler = sa.sa_handler })
    else none

unfoldable pub or_else : Option SignalEntry → Option SignalEntry → Option SignalEntry
or_else none b = b
or_else (some e) b = some e

rehandle_loop-stops :
    (es : List SignalEntry) (current n : ℕ)
    → (current == n) ≡ true
    → rehandle_loop es current n ≡ []
unfolding rehandle_loop
rehandle_loop-stops [] current n e = refl
rehandle_loop-stops (x ∷ es) current n e = rw e refl

rehandle_loop-searches :
    (es : List SignalEntry) (current n : ℕ)
    → (current == n) ≡ false
    → rehandle_loop es current n ≡ handed_on (first_entry es n) n
unfolding rehandle_loop first_entry handed_on
rehandle_loop-searches [] current n h = refl
rehandle_loop-searches (e ∷ es) current n h = elim (Bool-cases (e.signo == n)) [
  | inl here ↦ rw (h, here) (ap (λ l. call_entry e n ∷ l) (rehandle_loop-stops es e.signo n here))
  | inr away ↦ rw (h, away) (rehandle_loop-searches es e.signo n away)
]

-- The loop calls the first entry of the signal alone, and none once it has come to the signal.
pub rehandle_loop-first :
    (es : List SignalEntry) (current n : ℕ)
    → rehandle_loop es current n ≡ (if current == n then [] else handed_on (first_entry es n) n)
rehandle_loop-first es current n = elim (Bool-cases (current == n)) [
  | inl h ↦ rw h (rehandle_loop-stops es current n h)
  | inr h ↦ rw h (rehandle_loop-searches es current n h)
]

pub first_entry-append :
    (es : List SignalEntry) (e : SignalEntry) (n : ℕ)
    → first_entry (es ++ (e ∷ [])) n
      ≡ or_else (first_entry es n) (if e.signo == n then some e else none)
unfolding first_entry or_else
first_entry-append [] e n = refl
first_entry-append (x ∷ es) e n = elim (Bool-cases (x.signo == n)) [
  | inl here ↦ rw here refl
  | inr away ↦ rw away (first_entry-append es e n)
]

pub or_else-none : (o : Option SignalEntry) → or_else o none ≡ o
unfolding or_else
or_else-none none = refl
or_else-none (some e) = refl

pub unsaved :
    (x o : Option SignalEntry) (b : Bool) → o ≡ none → or_else x (if b then o else none) ≡ x
unsaved x o true e = ap (or_else x) e ∙ or_else-none x
unsaved x o false e = or_else-none x

pub at_signal {ℓ} :
    {A : Type ℓ} (n m : ℕ) (f : ℕ → A) (z : A)
    → (if n == m then f n else z) ≡ (if n == m then f m else z)
at_signal n m f z = elim (Bool-cases (n == m)) [
  | inl e ↦
      ap (λ b. if b then f n else z) e
      ∙ ap f ((==_iff n m).0 e)
      ∙ ap (λ b. if b then f m else z) (sym e)
  | inr e ↦ ap (λ b. if b then f n else z) e ∙ ap (λ b. if b then f m else z) (sym e)
]

same_handler_refl : (h : Handler) → same_handler h h ≡ true
unfolding same_handler
same_handler_refl sig_err = refl
same_handler_refl sig_dfl = refl
same_handler_refl sig_ign = refl
same_handler_refl apc_core_unmap = refl
same_handler_refl apc_clear_cache = refl
same_handler_refl (function f) = (==_iff f f).1 refl

new_action-handler : (sa : SigAction) (h : Handler) → (new_action sa h).sa_handler ≡ h
unfolding new_action
new_action-handler sa h = elim (Bool-cases (is_function sa.sa_handler)) [
  | inl e ↦ rw e refl
  | inr e ↦ rw e refl
]

-- A second registration finds the handler in its place.
pub twice :
    (g : Option SigAction) (h : Handler) (n : ℕ)
    → (taken_over (taken_over g h) h ≡ taken_over g h) × (saved (taken_over g h) h n ≡ none)
unfolding taken_over saved
twice none h n = (refl, refl)
twice (some sa) h n = elim (Bool-cases (same_handler sa.sa_handler h)) [
  | inl e ↦ rw (e, e) (refl, refl)
  | inr e ↦
      let own : same_handler (new_action sa h).sa_handler h ≡ true =
        ap (λ x. same_handler x h) (new_action-handler sa h) ∙ same_handler_refl h in
      rw e (rw own refl, rw own refl)
]

-- the handler that a registration puts in place, and the signals that are registered
unfoldable pub own_handler : Option ℕ → ℕ → Handler
own_handler clear n = elim clear [
  | none ↦ apc_core_unmap
  | some u ↦ if u == n then apc_clear_cache else apc_core_unmap
]

unfoldable pub all_signals : Option ℕ → List ℕ → List ℕ
all_signals clear core = elim clear [ none ↦ core | some u ↦ u ∷ core ]

-- Each of `regs` has the handler that it was registered with, and what was there is called again.
unfoldable pub Chained :
    {S : Type 0} → Kernel S → (ℕ → Handler) → List ℕ → S → SignalInfo × S → Type 0
unfolding handed_on
Chained kernel own regs s r =
    (m : ℕ)
    → (kernel.get_action m r.1 ≡ (
        if registered regs m
        then taken_over (kernel.get_action m s) (own m)
        else kernel.get_action m s))
      × (rehandle_signal r.0 m ≡ (
          if 0 == m
          then []
          else handed_on
              (if registered regs m then saved (kernel.get_action m s) (own m) m else none) m))
