-- ===== src/Signal/Register.antt =====
-- One registration of a handler.
use apcu.Prelude.{
  ℕ, ◌≡◌, refl, sym, ap, ◌∙◌, Bool, true, false, none, some, List, [], ◌∷◌, ◌++◌, ◌==◌, ==_iff,
  if◌then◌else◌, Bool-cases, Option-cases, inl, inr,
}
use apcu.Signal.{
  Handler, same_handler, is_function, SigAction, Kernel, SignalEntry, SignalInfo, save_handler,
  new_action, register_signal,
}
use apcu.Signal.Saved.{
  registered, first_entry, taken_over, saved, or_else, first_entry-append, unsaved,
}

-- The kernel puts the actions of the signals of `regs` in their places.
module _ {S : Type 0} (kernel : Kernel S) (regs : List ℕ)
    (set-get : (n m : ℕ) (a b : SigAction) (s : S)
      → registered regs n ≡ true
      → kernel.get_action n s ≡ some b
      → kernel.get_action m (kernel.set_action n a s).1
        ≡ (if n == m then some a else kernel.get_action m s)) where
  -- what a registration of `h` for `n` does
  pub record Registered (n : ℕ) (h : Handler) (info : SignalInfo) (s : S) : Type 0 where
    pub ok : Bool
    pub info' : SignalInfo
    pub s' : S
    pub runs : register_signal kernel n h info s ≡ some (ok, (info', s'))
    pub usable : info'.freed ≡ false
    pub actions :
        (m : ℕ)
        → kernel.get_action m s'
          ≡ (if n == m then taken_over (kernel.get_action n s) h else kernel.get_action m s)
    pub entries :
        (m : ℕ)
        → first_entry info'.prev m
          ≡ or_else
              (first_entry info.prev m)
              (if n == m then saved (kernel.get_action n s) h n else none)

  unchanged-Registered :
      (n : ℕ) (h : Handler) (info : SignalInfo) (s : S) (ok : Bool)
      → info.freed ≡ false
      → register_signal kernel n h info s ≡ some (ok, (info, s))
      → taken_over (kernel.get_action n s) h ≡ kernel.get_action n s
      → saved (kernel.get_action n s) h n ≡ none
      → Registered n h info s
  unchanged-Registered n h info s ok usable runs same no_entry = record {
    ok = ok;
    info' = info;
    s' = s;
    runs = runs;
    usable = usable;
    actions = λ m. elim (Bool-cases (n == m)) [
      | inl e ↦ rw e (ap (λ x. kernel.get_action x s) (sym ((==_iff n m).0 e)) ∙ sym same)
      | inr e ↦ rw e refl
    ];
    entries = λ m.
        sym
          (unsaved (first_entry info.prev m) (saved (kernel.get_action n s) h n) (n == m) no_entry);
  }

  pub register-Registered :
      (n : ℕ) (h : Handler) (info : SignalInfo) (s : S)
      → registered regs n ≡ true
      → info.freed ≡ false
      → Registered n h info s
  unfolding register_signal taken_over saved save_handler
  register-Registered n h info s mine usable = elim (Option-cases (kernel.get_action n s)) [
    | inl e ↦
        unchanged-Registered n h info s false usable (rw (register_signal, e) refl) (rw e refl)
          (rw e refl)
    | inr (sa, e) ↦ elim (Bool-cases (same_handler sa.sa_handler h)) [
      | inl own ↦
          unchanged-Registered n h info s true usable (rw (register_signal, e, own) refl)
            (rw (e, taken_over, own) refl) (rw (e, saved, own) refl)
      | inr other ↦
          let s' = (kernel.set_action n (new_action sa h) s).1 in
          let entry : SignalEntry = record {
            signo = n;
            siginfo = sa.sa_siginfo;
            handler = sa.sa_handler;
          } in
          let over : taken_over (kernel.get_action n s) h ≡ some (new_action sa h) =
            rw (e, taken_over, other) refl in
          elim (Bool-cases (is_function sa.sa_handler)) [
            | inl fn ↦ record {
              ok = true;
              info' = record info { prev = info.prev ++ (entry ∷ []) };
              s' = s';
              runs = rw (register_signal, e, other, fn, save_handler, usable) refl;
              usable = usable;
              actions = λ m.
                  set-get n m (new_action sa h) sa s mine e
                  ∙ ap (λ o. if n == m then o else kernel.get_action m s) (sym over);
              entries = λ m.
                  first_entry-append info.prev entry m
                  ∙ ap (λ o. or_else (first_entry info.prev m) (if n == m then o else none))
                      (sym (rw (e, saved, other, fn) refl));
            }
            | inr no_fn ↦ record {
              ok = true;
              info' = info;
              s' = s';
              runs = rw (register_signal, e, other, no_fn) refl;
              usable = usable;
              actions = λ m.
                  set-get n m (new_action sa h) sa s mine e
                  ∙ ap (λ o. if n == m then o else kernel.get_action m s) (sym over);
              entries = λ m. sym (
                  unsaved (first_entry info.prev m) (saved (kernel.get_action n s) h n) (n == m)
                    (rw (e, saved, other, no_fn) refl));
            }
          ]
    ]
  ]
