-- ===== src/Signal/Chain.antt =====
-- The handlers that were there before: which of them are saved, and called again.
use apcu.Prelude.{
  ℕ, ◌≡◌, refl, sym, ap, ◌∙◌, Bool, true, false, Option, none, some, List, [], ◌∷◌, ◌||◌, ◌==◌,
  ==_iff, if◌then◌else◌, ◌>>=◌, arith, Bool-cases, inl, inr,
}
use apcu.Signal.{
  Handler, apc_core_unmap, apc_clear_cache, SigAction, Kernel, SignalEntry, SignalInfo, no_signals,
  nothing_installed, register_signal, register_core, set_signals, rehandle_signal,
}
use apcu.Signal.Saved.{
  own_handler, all_signals, Chained, first_entry, handed_on, registered, taken_over, saved, or_else,
  rehandle_loop-first, or_else-none, at_signal, twice,
}
use apcu.Signal.Register.{Registered, register-Registered}

or_true : (b : Bool) → b || true ≡ true
or_true b = ground arith

module _ {S : Type 0} (kernel : Kernel S) (regs : List ℕ)
    (set-get : (n m : ℕ) (a b : SigAction) (s : S)
      → registered regs n ≡ true
      → kernel.get_action n s ≡ some b
      → kernel.get_action m (kernel.set_action n a s).1
        ≡ (if n == m then some a else kernel.get_action m s)) where
  -- The signals of `done` were registered, each with its own handler, from `s₀` on.
  record Taken (own : ℕ → Handler) (s₀ : S) (done : ℕ → Bool) (info : SignalInfo) (s : S)
      : Type 0 where
    pub usable : info.freed ≡ false
    pub actions :
        (m : ℕ)
        → kernel.get_action m s
          ≡ (if done m then taken_over (kernel.get_action m s₀) (own m) else kernel.get_action m s₀)
    pub entries :
        (m : ℕ)
        → first_entry info.prev m
          ≡ (if done m then saved (kernel.get_action m s₀) (own m) m else none)

  -- one more registration, where `g` is the action at the start
  more_action :
      (b d : Bool) (g now : Option SigAction) (h : Handler)
      → now ≡ (if d then taken_over g h else g)
      → (if b then taken_over now h else now) ≡ (if b || d then taken_over g h else g)
  more_action true true g now h e = ap (λ x. taken_over x h) e ∙ (twice g h 0).0
  more_action true false g now h e = ap (λ x. taken_over x h) e
  more_action false true g now h e = e
  more_action false false g now h e = e

  more_entry :
      (b d : Bool) (g now : Option SigAction) (x : Option SignalEntry) (h : Handler) (m : ℕ)
      → now ≡ (if d then taken_over g h else g)
      → x ≡ (if d then saved g h m else none)
      → or_else x (if b then saved now h m else none) ≡ (if b || d then saved g h m else none)
  unfolding or_else saved
  more_entry true true g now x h m e f =
      ap (λ y. or_else x (saved y h m)) e ∙ ap (or_else x) (twice g h m).1 ∙ or_else-none x ∙ f
  more_entry true false g now x h m e f =
      ap (λ y. or_else y (saved now h m)) f ∙ ap (λ y. saved y h m) e
  more_entry false true g now x h m e f = or_else-none x ∙ f
  more_entry false false g now x h m e f = or_else-none x ∙ f

  step-Taken :
      (own : ℕ → Handler) (s₀ : S) (done : ℕ → Bool) (n : ℕ) (info : SignalInfo) (s : S)
      → Taken own s₀ done info s
      → (r : Registered kernel regs set-get n (own n) info s)
      → Taken own s₀ (λ m. n == m || done m) r.info' r.s'
  step-Taken own s₀ done n info s t r = record {
    usable = r.usable;
    actions = λ m.
        r.actions m
        ∙ at_signal n m (λ x. taken_over (kernel.get_action x s) (own x)) (kernel.get_action m s)
        ∙ more_action (n == m) (done m) (kernel.get_action m s₀) (kernel.get_action m s) (own m)
            (t.actions m);
    entries = λ m.
        r.entries m
        ∙ ap (or_else (first_entry info.prev m))
            (at_signal n m (λ x. saved (kernel.get_action x s) (own x) x) none)
        ∙ more_entry (n == m) (done m) (kernel.get_action m s₀) (kernel.get_action m s)
            (first_entry info.prev m) (own m) m (t.actions m) (t.entries m);
  }

  same-Taken :
      (own : ℕ → Handler) (s₀ : S) (done done' : ℕ → Bool) (info : SignalInfo) (s : S)
      → ((m : ℕ) → done m ≡ done' m)
      → Taken own s₀ done info s
      → Taken own s₀ done' info s
  same-Taken own s₀ done done' info s e t = record {
    usable = t.usable;
    actions = λ m.
        t.actions m
        ∙ ap
            (λ b. if b then taken_over (kernel.get_action m s₀) (own m) else kernel.get_action m s₀)
            (e m);
    entries = λ m.
        t.entries m ∙ ap (λ b. if b then saved (kernel.get_action m s₀) (own m) m else none) (e m);
  }

  in_turn : (b x d : Bool) → x || (b || d) ≡ (b || x) || d
  in_turn b x d = ground arith

  core-Taken :
      (own : ℕ → Handler) (s₀ : S) (ns : List ℕ) (done : ℕ → Bool) (info : SignalInfo) (s : S)
      → ((n : ℕ) → registered ns n ≡ true → own n ≡ apc_core_unmap)
      → ((n : ℕ) → registered ns n ≡ true → registered regs n ≡ true)
      → Taken own s₀ done info s
      → (r : SignalInfo × S) × (register_core kernel ns info s ≡ some r)
        × Taken own s₀ (λ m. registered ns m || done m) r.0 r.1
  unfolding register_core registered
  core-Taken own s₀ [] done info s mine among t = ((info, s), refl, t)
  core-Taken own s₀ (n ∷ ns) done info s mine among t =
      let h : own n ≡ apc_core_unmap = mine n (rw ((==_iff n n).1 refl) refl) in
      let r =
        register-Registered kernel regs set-get n (own n) info s
          (among n (rw ((==_iff n n).1 refl) refl)) t.usable in
      let (last, runs, u) =
        core-Taken own s₀ ns (λ m. n == m || done m) r.info' r.s'
          (λ m e. mine m (rw e (later (n == m)))) (λ m e. among m (rw e (later (n == m))))
          (step-Taken own s₀ done n info s t r) in
      (
        last,
        ap
              (λ x. register_signal kernel n x info s >>= λ (q : Bool × (SignalInfo × S)).
                register_core kernel ns q.1.0 q.1.1)
              (sym h)
            ∙ ap (λ o. o >>= λ (q : Bool × (SignalInfo × S)). register_core kernel ns q.1.0 q.1.1)
                r.runs
            ∙ runs,
        same-Taken own s₀ _ (λ m. (n == m || registered ns m) || done m) last.0 last.1
            (λ m. in_turn (n == m) (registered ns m) (done m)) u,
      )
    where
      later : (b : Bool) → b || true ≡ true
      later b = ground arith

  start-Taken : (own : ℕ → Handler) (s : S) → Taken own s (λ m. false) no_signals s
  unfolding first_entry
  start-Taken own s = record { usable = refl; actions = λ m. refl; entries = λ m. refl }

  Taken-Chained :
      (own : ℕ → Handler) (s : S) (r : SignalInfo × S)
      → Taken own s (registered regs) r.0 r.1
      → Chained kernel own regs s r
  unfolding Chained handed_on rehandle_signal
  Taken-Chained own s r t m = (
    t.actions m,
    rehandle_loop-first r.0.prev 0 m ∙ ap (λ o. if 0 == m then [] else handed_on o m) (t.entries m),
  )

or_false : (b : Bool) → b || false ≡ b
or_false b = ground arith

or_swap : (a b : Bool) → a || (b || false) ≡ b || a
or_swap a b = ground arith

own_clear : (u : ℕ) → own_handler (some u) u ≡ apc_clear_cache
unfolding own_handler
own_clear u = rw ((==_iff u u).1 refl) refl

own_core :
    (u : ℕ) (core : List ℕ) (n : ℕ)
    → registered core u ≡ false
    → registered core n ≡ true
    → own_handler (some u) n ≡ apc_core_unmap
unfolding own_handler
own_core u core n away there = elim (Bool-cases (u == n)) [
  | inl e ↦
      let same = ap (registered core) ((==_iff u n).0 e) in absurd (clash (sym away ∙ same ∙ there))
  | inr e ↦ rw e refl
]
  where
    clash : false ≡ true → ⊥
    clash e = ground arith

-- Where unmapping before a core dump is on, `SIGUSR1` is none of the signals that dump core, and the
-- system puts the actions of the signals that are registered in their places: apc_set_signals, at the start of the
-- program, ends. It replaces the action of each signal that it registers and that the system has by
-- its own handler, and no other one. A signal other than 0 is then handed on to the function that
-- was its handler before, once and in that function's style, if the signal was registered and that
-- function is not the new handler itself, and to nothing otherwise.
pub set_signals-chains :
    {S : Type 0} (kernel : Kernel S) (clear : Option ℕ) (core : List ℕ) (s : S)
    → ((n m : ℕ) (a b : SigAction) (t : S)
        → registered (all_signals clear core) n ≡ true
        → kernel.get_action n t ≡ some b
        → kernel.get_action m (kernel.set_action n a t).1
          ≡ (if n == m then some a else kernel.get_action m t))
    → ((u : ℕ) → clear ≡ some u → registered core u ≡ false)
    → (r : SignalInfo × S) × (set_signals kernel clear true core no_signals s ≡ some r)
      × Chained kernel (own_handler clear) (all_signals clear core) s r
unfolding set_signals nothing_installed all_signals registered own_handler
set_signals-chains {S} kernel none core s set-get apart =
    let own = own_handler none in
    let (r, runs, t) =
      core-Taken kernel core set-get own s core (λ m. false) no_signals s (λ n h. core_own n)
        (λ n h. h) (start-Taken kernel core set-get own s) in
    (
      r,
      runs,
      Taken-Chained kernel core set-get own s r (
          same-Taken kernel core set-get own s _ (registered core) r.0 r.1
            (λ m. or_false (registered core m)) t),
    )
  where
    core_own : (n : ℕ) → own_handler none n ≡ apc_core_unmap
    core_own n = refl
set_signals-chains {S} kernel (some u) core s set-get apart =
    let own = own_handler (some u) in
    let away = apart u refl in
    let first =
      register-Registered kernel (u ∷ core) set-get u (own u) no_signals s
        (rw ((==_iff u u).1 refl) refl) refl in
    let (r, runs, t) =
      core-Taken kernel (u ∷ core) set-get own s core (λ m. u == m || false) first.info' first.s'
        (λ n h. own_core u core n away h) (λ n h. rw h (or_true (u == n)))
        (step-Taken kernel (u ∷ core) set-get own s (λ m. false) u no_signals s
          (start-Taken kernel (u ∷ core) set-get own s) first) in
    (
      r,
      ap
            (λ h.
              (register_signal kernel u h no_signals s >>= λ (q : Bool × (SignalInfo × S)).
              some q.1)
              >>= λ (q : SignalInfo × S). register_core kernel core q.0 q.1)
            (sym (own_clear u))
          ∙ ap
              (λ o. (o >>= λ (q : Bool × (SignalInfo × S)). some q.1) >>= λ (q : SignalInfo × S).
                register_core kernel core q.0 q.1)
              first.runs
          ∙ runs,
      Taken-Chained kernel (u ∷ core) set-get own s r (
          same-Taken kernel (u ∷ core) set-get own s _ (registered (u ∷ core)) r.0 r.1
            (λ m. or_swap (registered core m) (u == m)) t),
    )
