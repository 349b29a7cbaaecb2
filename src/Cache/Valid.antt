-- ===== src/Cache/Valid.antt =====
-- The invariant of the cache: where entries stand, that their keys are distinct, and that the
-- header counts them.
pub mod Update
pub mod Lookup
use apcu.Prelude.{
  ℕ, zero, suc, ◌+◌, ◌%◌, ◌<◌, ◌≡◌, refl, Bool, true, false, List, [], ◌∷◌, arith, length, get_or,
  set, if◌then◌else◌,
}
use apcu.Cache.Types.{ZendString, Entry, Header}
use apcu.Cache.Allocator.{Allocator, Cache}
use apcu.Cache.Entry.{key_equals}

unfoldable pub weight : List Entry → ℕ
weight [] = 0
weight (e ∷ es) = e.mem_size + weight es

unfoldable pub total_count : List (List Entry) → ℕ
total_count [] = 0
total_count (es ∷ ss) = length es + total_count ss

unfoldable pub total_weight : List (List Entry) → ℕ
unfolding weight
total_weight [] = 0
total_weight (es ∷ ss) = weight es + total_weight ss

-- no entry of the list has the key
abbrev pub Lacks : ZendString → List Entry → Type 0
Lacks k [] = Unit
Lacks k (e ∷ es) = (key_equals e k ≡ false) × Lacks k es

abbrev pub Distinct : List Entry → Type 0
Distinct [] = Unit
Distinct (e ∷ es) = Lacks e.key es × Distinct es

-- every entry's hash leads to slot `i` of `n`
abbrev pub Placed : (n i : ℕ) → List Entry → Type 0
Placed n i [] = Unit
Placed n i (e ∷ es) = (e.key.h % n ≡ i) × Placed n i es

abbrev pub GoodSlot : (n i : ℕ) → List Entry → Type 0
GoodSlot n i es = Placed n i es × Distinct es

-- the slots from number `i` on
abbrev pub GoodSlots : (n i : ℕ) → List (List Entry) → Type 0
GoodSlots n i [] = Unit
GoodSlots n i (es ∷ ss) = GoodSlot n i es × GoodSlots n (suc i) ss

-- the header counts `n` entries of `w` bytes
pub record Tally (hd : Header) (n w : ℕ) : Type 0 where
  pub count : hd.nentries ≡ n
  pub bytes : hd.mem_size ≡ w

pub record IsValid ⦃a : Allocator⦄ (cache : Cache a) : Type 0 where
  pub some_slots : 0 < cache.nslots
  pub sized : length cache.slots ≡ cache.nslots
  pub good : GoodSlots cache.nslots 0 cache.slots
  pub tally : Tally cache.header (total_count cache.slots) (total_weight cache.slots)

pub total-set :
    (ss : List (List Entry)) (i : ℕ) (es : List Entry)
    → i < length ss
    → (total_count (set ss i es) + length (get_or ss i []) ≡ total_count ss + length es)
      × (total_weight (set ss i es) + weight (get_or ss i []) ≡ total_weight ss + weight es)
unfolding total_count total_weight
total-set [] i es h = absurd (omega arith)
total-set (x ∷ ss) zero es h = (omega arith, omega arith)
total-set (x ∷ ss) (suc i) es h =
    let ih = total-set ss i es (omega arith) in (omega (arith, ih.0), omega (arith, ih.1))

pub GoodSlots-get :
    (n k i : ℕ) (ss : List (List Entry))
    → GoodSlots n k ss
    → i < length ss
    → GoodSlot n (k + i) (get_or ss i [])
GoodSlots-get n k i [] g h = absurd (omega arith)
GoodSlots-get n k zero (es ∷ ss) g h = let e : k + 0 ≡ k = omega arith in rw e (g.0)
GoodSlots-get n k (suc i) (es ∷ ss) g h =
    let e : k + suc i ≡ suc k + i = omega arith in
    rw e (GoodSlots-get n (suc k) i ss g.1 (omega arith))

pub GoodSlots-set :
    (n k i : ℕ) (ss : List (List Entry)) (es : List Entry)
    → GoodSlots n k ss
    → GoodSlot n (k + i) es
    → GoodSlots n k (set ss i es)
GoodSlots-set n k i [] es g h = tt
GoodSlots-set n k zero (x ∷ ss) es g h = let e : k ≡ k + 0 = omega arith in (rw e h, g.1)
GoodSlots-set n k (suc i) (x ∷ ss) es g h =
    let e : suc k + i ≡ k + suc i = omega arith in
    (g.0, GoodSlots-set n (suc k) i ss es g.1 (rw e h))
