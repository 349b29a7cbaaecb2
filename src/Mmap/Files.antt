-- ===== src/Mmap/Files.antt =====
-- The descriptors and the files that a mapping uses, and what is left of them at its end.
use apcu.Prelude.{
  ℕ, ◌^◌, ◌<◌, ◌==◌, ◌≡◌, refl, ap, ◌∙◌, ◌⊎◌, inl, inr, Bool, Option, none, some, List, [], ◌∷◌,
  Bool-cases, Option-cases,
}
use apcu.Cache.Types.{memcmp_eq}
use apcu.Mmap.{
  System, MapFlags, HugepageFlags, huge, refused, Opened, opened, open_fatal, Outcome, mapped,
  fatal, Fatal, mmap_failed, dev_zero, open_temporary, open_file, close_file, map_file,
  map_with_flags, map_opened, apc_mmap,
}
use apcu.Mmap.Hugepages.{hugepage_flags_ends}

-- the open descriptors of the process, and the files that it made
abbrev pub Held : Type 0
Held = List ℕ × List (List ℕ)

unfoldable pub with_fd : Option ℕ → Held → Held
with_fd none h = h
with_fd (some fd) h = (fd ∷ h.0, h.1)

unfoldable pub with_file : Option (ℕ × List ℕ) → Held → Held
with_file none h = h
with_file (some f) h = (f.0 ∷ h.0, f.1 ∷ h.1)

-- What the calls do to the descriptors and the files, as the system documents them: `open` and
-- `mkstemp` add what they give, `close` and `unlink` take away what came last, and the others leave
-- all of it.
pub record Tracked (S : Type 0) (sys : System S) : Type 0 where
  pub held : S → Held
  pub held-open_dev_zero :
      (s : S) → held (sys.open_dev_zero s).1 ≡ with_fd (sys.open_dev_zero s).0 (held s)
  pub held-mkstemp :
      (m : List ℕ) (s : S) → held (sys.mkstemp m s).1 ≡ with_file (sys.mkstemp m s).0 (held s)
  pub held-ftruncate : (fd size : ℕ) (s : S) → held (sys.ftruncate fd size s).1 ≡ held s
  pub held-close :
      (fd : ℕ) (h : Held) (s : S) → held s ≡ (fd ∷ h.0, h.1) → held (sys.close fd s) ≡ h
  pub held-unlink :
      (f : List ℕ) (h : Held) (s : S) → held s ≡ (h.0, f ∷ h.1) → held (sys.unlink f s) ≡ h
  pub held-map_memory :
      (size : ℕ) (flags : MapFlags) (fd : Option ℕ) (s : S)
      → held (sys.map_memory size flags fd s).1 ≡ held s
  pub held-madvise : (a size : ℕ) (s : S) → held (sys.madvise a size s) ≡ held s

module _ {S : Type 0} (sys : System S) (tracked : Tracked S sys) where
  -- a mapping leaves nothing behind; before a stop the descriptor may still be open
  pub Released : S → Outcome S → Type 0
  Released s (mapped a t) = tracked.held t ≡ tracked.held s
  Released s (fatal e t) =
      (tracked.held t ≡ tracked.held s)
      ⊎ ((fd : ℕ) × (tracked.held t ≡ with_fd (some fd) (tracked.held s)))

  HeldOpen : S → Opened S → Type 0
  HeldOpen s (opened fd anon t) = tracked.held t ≡ with_fd fd (tracked.held s)
  HeldOpen s (open_fatal e t) = tracked.held t ≡ tracked.held s

  open_temporary-held : (m : List ℕ) (size : ℕ) (s : S) → HeldOpen s (open_temporary sys m size s)
  unfolding HeldOpen open_temporary with_fd with_file
  open_temporary-held m size s = elim (Option-cases (sys.mkstemp m s).0) [
    | inl e ↦ rw (e, HeldOpen) (tracked.held-mkstemp m s ∙ ap (λ o. with_file o (tracked.held s)) e)
    | inr f ↦
        let made = tracked.held-mkstemp m s ∙ ap (λ o. with_file o (tracked.held s)) f.1 in
        let cut = tracked.held-ftruncate f.0.0 size (sys.mkstemp m s).1 ∙ made in
        let before = tracked.held s in
        elim (Bool-cases (sys.ftruncate f.0.0 size (sys.mkstemp m s).1).0) [
          | inl ok ↦
              rw (f.1, ok, HeldOpen) (tracked.held-unlink f.0.1 (f.0.0 ∷ before.0, before.1) _ cut)
          | inr failed ↦
              let closed = tracked.held-close f.0.0 (before.0, f.0.1 ∷ before.1) _ cut in
              rw (f.1, failed, HeldOpen) (tracked.held-unlink f.0.1 before _ closed)
        ]
  ]

  open_file-held : (m : List ℕ) (size : ℕ) (s : S) → HeldOpen s (open_file sys m size s)
  unfolding HeldOpen open_file with_fd
  open_file-held [] size s = refl
  open_file-held (c ∷ cs) size s = elim (Bool-cases (memcmp_eq (c ∷ cs) dev_zero)) [
    | inl zeros ↦ elim (Option-cases (sys.open_dev_zero s).0) [
      | inl e ↦
          rw (zeros, e) (tracked.held-open_dev_zero s ∙ ap (λ o. with_fd o (tracked.held s)) e)
      | inr fd ↦
          rw (zeros, fd.1)
            (tracked.held-open_dev_zero s ∙ ap (λ o. with_fd o (tracked.held s)) fd.1)
    ]
    | inr other ↦ rw other (open_temporary-held (c ∷ cs) size s)
  ]

  close_file-held :
      (fd : Option ℕ) (h : Held) (t : S)
      → tracked.held t ≡ with_fd fd h
      → tracked.held (close_file sys fd t) ≡ h
  unfolding close_file with_fd
  close_file-held none h t e = e
  close_file-held (some fd) h t e = tracked.held-close fd h t e

  left_open :
      (e : Fatal) (fd : Option ℕ) (s t : S)
      → tracked.held t ≡ with_fd fd (tracked.held s)
      → Released s (fatal e t)
  unfolding Released with_fd
  left_open e none s t h = inl h
  left_open e (some fd) s t h = inr (fd, h)

  map_file-held :
      (fd : Option ℕ) (flags : MapFlags) (size h : ℕ) (s t : S)
      → tracked.held t ≡ with_fd fd (tracked.held s)
      → Released s (map_file sys fd flags size h t)
  unfolding Released map_file close_file with_fd
  map_file-held fd flags size h s t e =
      let r = sys.map_memory size flags fd t in
      let after = tracked.held-map_memory size flags fd t ∙ e in
      elim (Option-cases r.0) [
        | inl none_mapped ↦ rw (none_mapped, Released) (left_open mmap_failed fd s r.1 after)
        | inr a ↦ elim (Bool-cases (h == 0)) [
          | inl no_pages ↦
              rw (a.1, no_pages, Released)
                (close_file-held fd (tracked.held s) _ (tracked.held-madvise a.0 size r.1 ∙ after))
          | inr pages ↦ rw (a.1, pages, Released) (close_file-held fd (tracked.held s) r.1 after)
        ]
      ]

  map_with_flags-held :
      (fd : Option ℕ) (anon : Bool) (size h : ℕ) (f : HugepageFlags) (s t : S)
      → tracked.held t ≡ with_fd fd (tracked.held s)
      → Released s (map_with_flags sys fd anon size h f t)
  unfolding Released map_with_flags
  map_with_flags-held fd anon size h (refused e) s t held = left_open e fd s t held
  map_with_flags-held fd anon size h (huge l) s t held = map_file-held fd _ size h s t held

  map_opened_releases :
      (huge_mask size h : ℕ) (s : S) (r : Opened S)
      → h < 2 ^ 63
      → HeldOpen s r
      → (o : Outcome S) × (map_opened sys huge_mask size h r ≡ some o) × Released s o
  unfolding Released HeldOpen map_opened
  map_opened_releases mask size h s (open_fatal e t) small held = (fatal e t, refl, inl held)
  map_opened_releases mask size h s (opened fd anon t) small held =
      let f = hugepage_flags_ends mask size h small in
      (
        map_with_flags sys fd anon size h f.0 t,
        rw f.1 refl,
        map_with_flags-held fd anon size h f.0 s t held,
      )

  -- Where the calls of the system add and take away descriptors and files as documented, apc_mmap
  -- ends for each size of a page below 2^63: with a mapping, the descriptors and the files are those
  -- from before; where it stops the process, the files are those from before, and at most one
  -- descriptor is left open.
  pub apc_mmap_releases :
      (huge_mask : ℕ) (m : List ℕ) (size h : ℕ) (s : S)
      → h < 2 ^ 63
      → (o : Outcome S) × (apc_mmap sys huge_mask m size h s ≡ some o) × Released s o
  unfolding apc_mmap
  apc_mmap_releases mask m size h s small =
      map_opened_releases mask size h s (open_file sys m size s) small (open_file-held m size s)
