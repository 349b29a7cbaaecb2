-- ===== src/Mmap.antt =====
-- The mapping of the shared memory: apc_mmap.c, and the setting apc.mmap_hugepage_size of
-- php_apc.c that it reads. The calls of the system are a parameter, `System`.
mod Digits
pub mod Hugepages
pub mod Files
use apcu.Prelude.{
  ℕ, zero, suc, ◌+◌, ◌-◌, ◌*◌, ◌/◌, ◌%◌, Bool, true, false, not, Option, none, some, List, [], ◌∷◌,
  ◌==◌, ◌||◌, if◌then◌else◌, ◌>>=◌,
}
use Prim.Native.Nat.{bit_and}
use apcu.Prelude.Int.{ℤ, pos, negsuc}
use apcu.Cache.Types.{memcmp_eq}

-- `OnUpdateMmapHugepageSize`: the setting, once its text is read; `none` is a failure. For 0 the
-- other side of `s & (s - 1)` is -1, and the result 0.
unfoldable pub on_update_mmap_hugepage_size : ℤ → Option ℕ
on_update_mmap_hugepage_size (pos s) = if bit_and s (s - 1) == 0 then some s else none
on_update_mmap_hugepage_size (negsuc s) = none

-- the errors after which the process stops
pub data Fatal : Type 0 where
  size_no_multiple : Fatal
  invalid_hugepage_size : Fatal
  open_failed : Fatal
  mkstemp_failed : Fatal
  ftruncate_failed : Fatal
  mmap_failed : Fatal

-- The loop that counts the shifts to 0. `rounds` is `log2_page_size + 1`; `none` is a loop that
-- needs more rounds than `fuel`.
unfoldable pub log2_loop : (fuel page_size rounds : ℕ) → Option ℕ
log2_loop zero page_size rounds = if page_size == 0 then some rounds else none
log2_loop (suc fuel) page_size rounds =
    let rest = log2_loop fuel (page_size / 2) (rounds + 1) in
    if page_size == 0 then some rounds else rest

-- what `apc_mmap_hugepage_flags` adds to the flags: nothing, or `MAP_HUGETLB` with the logarithm
-- of the size of a page; or the error that it ends with
pub data HugepageFlags : Type 0 where
  huge : Option ℕ → HugepageFlags
  refused : Fatal → HugepageFlags

-- in a system with `MAP_HUGETLB`; `huge_mask` is `MAP_HUGE_MASK`
pub apc_mmap_hugepage_flags : (huge_mask size hugepage_size : ℕ) → Option HugepageFlags
apc_mmap_hugepage_flags huge_mask size hugepage_size =
    if hugepage_size == 0
    then some (huge none)
    else if not (size % hugepage_size == 0)
    then some (refused size_no_multiple)
    else (log2_loop 64 hugepage_size 0 >>= λ (rounds : ℕ).
        let log2_page_size = rounds - 1 in
        some (
          if log2_page_size == 0 || not (bit_and log2_page_size huge_mask == log2_page_size)
          then refused invalid_hugepage_size
          else huge (some log2_page_size)))

-- the flags of the mapping beside `MAP_SHARED`
pub record MapFlags : Type 0 where
  map_nosync : Bool
  map_anon : Bool
  map_hugetlb : Option ℕ

-- The calls of the system in a state `S`. `mkstemp` gives a descriptor and the name of the file
-- that it made; a missing descriptor is -1.
pub record System (S : Type 0) : Type 0 where
  pub open_dev_zero : S → Option ℕ × S
  pub mkstemp : List ℕ → S → Option (ℕ × List ℕ) × S
  pub ftruncate : ℕ → ℕ → S → Bool × S
  pub close : ℕ → S → S
  pub unlink : List ℕ → S → S
  pub map_memory : ℕ → MapFlags → Option ℕ → S → Option ℕ × S
  pub madvise : ℕ → ℕ → S → S
  pub munmap : ℕ → ℕ → S → Bool × S

-- the characters of "/dev/zero"
abbrev pub dev_zero : List ℕ
dev_zero = 47 ∷ 100 ∷ 101 ∷ 118 ∷ 47 ∷ 122 ∷ 101 ∷ 114 ∷ 111 ∷ []

-- after the file is opened: its descriptor, and whether the mapping is anonymous
pub data Opened (S : Type 0) : Type 0 where
  opened : Option ℕ → Bool → S → Opened S
  open_fatal : Fatal → S → Opened S

pub data Outcome (S : Type 0) : Type 0 where
  mapped : ℕ → S → Outcome S
  fatal : Fatal → S → Outcome S

module _ {S : Type 0} (sys : System S) where
  pub open_temporary : (file_mask : List ℕ) (size : ℕ) → S → Opened S
  open_temporary file_mask size s =
      let made = sys.mkstemp file_mask s in
      elim made.0 [
        | none ↦ open_fatal mkstemp_failed made.1
        | some f ↦
            let cut = sys.ftruncate f.0 size made.1 in
            if cut.0
            then opened (some f.0) false (sys.unlink f.1 cut.1)
            else open_fatal ftruncate_failed (sys.unlink f.1 (sys.close f.0 cut.1))
      ]

  -- `file_mask` is empty also where it is null
  pub open_file : (file_mask : List ℕ) (size : ℕ) → S → Opened S
  unfolding open_temporary memcmp_eq
  open_file [] size s = opened none true s
  open_file (c ∷ cs) size s =
      let zeros = sys.open_dev_zero s in
      if memcmp_eq (c ∷ cs) dev_zero
      then elim zeros.0 [
        | none ↦ open_fatal open_failed zeros.1
        | some fd ↦ opened (some fd) false zeros.1
      ]
      else open_temporary (c ∷ cs) size s

  pub close_file : Option ℕ → S → S
  close_file none s = s
  close_file (some fd) s = sys.close fd s

  -- from the call of `mmap` on
  pub map_file : Option ℕ → MapFlags → (size hugepage_size : ℕ) → S → Outcome S
  unfolding close_file
  map_file fd flags size hugepage_size s =
      let r = sys.map_memory size flags fd s in
      elim r.0 [
        | none ↦ fatal mmap_failed r.1
        | some shmaddr ↦
            let advised = if hugepage_size == 0 then sys.madvise shmaddr size r.1 else r.1 in
            mapped shmaddr (close_file fd advised)
      ]

  pub map_with_flags :
      Option ℕ → (map_anon : Bool) → (size hugepage_size : ℕ) → HugepageFlags → S → Outcome S
  unfolding map_file
  map_with_flags fd map_anon size hugepage_size (refused e) s = fatal e s
  map_with_flags fd map_anon size hugepage_size (huge h) s =
      let flags : MapFlags = record {
        map_nosync = not map_anon;
        map_anon = map_anon;
        map_hugetlb = h;
      } in
      map_file fd flags size hugepage_size s

  -- from the computation of the flags on; `none` is a loop without end
  pub map_opened : (huge_mask size hugepage_size : ℕ) → Opened S → Option (Outcome S)
  unfolding map_with_flags
  map_opened huge_mask size hugepage_size (open_fatal e s) = some (fatal e s)
  map_opened huge_mask size hugepage_size (opened fd map_anon s) =
      apc_mmap_hugepage_flags huge_mask size hugepage_size >>= λ (f : HugepageFlags).
      some (map_with_flags fd map_anon size hugepage_size f s)

  pub apc_mmap :
      (huge_mask : ℕ) (file_mask : List ℕ) (size hugepage_size : ℕ) → S → Option (Outcome S)
  unfolding open_file map_opened
  apc_mmap huge_mask file_mask size hugepage_size s =
      map_opened huge_mask size hugepage_size (open_file file_mask size s)

  -- whether it succeeds (a failure is a warning)
  pub apc_unmap : (shmaddr size : ℕ) → S → Bool × S
  apc_unmap shmaddr size s = sys.munmap shmaddr size s
