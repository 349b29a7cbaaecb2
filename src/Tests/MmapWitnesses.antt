-- ===== src/Tests/MmapWitnesses.antt =====
-- The theorems on the mapping of memory, at a small system.
use apcu.Prelude.{
  ℕ, ◌%◌, ◌^◌, ◌≡◌, refl, ap, ◌⊎◌, true, not, some, none, List, [], ◌∷◌, ◌==◌, if◌then◌else◌, arith,
}
use apcu.Prelude.Int.{pos}
use apcu.Mmap.{
  System, apc_mmap, Outcome, on_update_mmap_hugepage_size, apc_mmap_hugepage_flags, huge, refused,
  size_no_multiple, invalid_hugepage_size,
}
use apcu.Mmap.Hugepages.{hugepage_flags_accepted}
use apcu.Mmap.Files.{Held, with_fd, with_file, Tracked, Released, apc_mmap_releases}

abbrev page_size : ℕ
page_size = 2097152

abbrev shm_size : ℕ
shm_size = 33554432

hugepage_flags_accepted_example :
    ((page_size ≡ 0) × (apc_mmap_hugepage_flags 63 shm_size page_size ≡ some (huge none)))
    ⊎ ((k : ℕ) × (page_size ≡ 2 ^ k)
        × (apc_mmap_hugepage_flags 63 shm_size page_size
            ≡ some (
                if not (shm_size % page_size == 0)
                then refused size_no_multiple
                else if k == 0
                then refused invalid_hugepage_size
                else huge (some k))))
unfolding on_update_mmap_hugepage_size
hugepage_flags_accepted_example =
    hugepage_flags_accepted shm_size (pos page_size) page_size refl (omega arith)

tail : {A : Type 0} → List A → List A
tail [] = []
tail (x ∷ xs) = xs

-- a system that opens descriptor 5 and makes the file 7
abbrev files_system : System Held
files_system = record {
  open_dev_zero = λ h. (some 5, (5 ∷ h.0, h.1));
  mkstemp = λ m h. (some (5, 7 ∷ []), (5 ∷ h.0, (7 ∷ []) ∷ h.1));
  ftruncate = λ fd size h. (true, h);
  close = λ fd h. (tail h.0, h.1);
  unlink = λ f h. (h.0, tail h.1);
  map_memory = λ size flags fd h. (some 4096, h);
  madvise = λ a size h. h;
  munmap = λ a size h. (true, h);
}

files_tracked : Tracked Held files_system
unfolding with_fd with_file tail
files_tracked = record {
  held = λ h. h;
  held-open_dev_zero = λ s. refl;
  held-mkstemp = λ m s. refl;
  held-ftruncate = λ fd size s. refl;
  held-close = λ fd h s e. ap (λ (x : Held). (tail x.0, x.1)) e;
  held-unlink = λ f h s e. ap (λ (x : Held). (x.0, tail x.1)) e;
  held-map_memory = λ size flags fd s. refl;
  held-madvise = λ a size s. refl;
}

apc_mmap_releases_example :
    (o : Outcome Held) × (apc_mmap files_system 63 (47 ∷ 120 ∷ []) shm_size page_size (2 ∷ [], [])
      ≡ some o)
    × Released files_system files_tracked (2 ∷ [], []) o
apc_mmap_releases_example =
    apc_mmap_releases files_system files_tracked 63 (47 ∷ 120 ∷ []) shm_size page_size (2 ∷ [], [])
      (omega arith)
