-- ===== src/Persist/Sync.antt =====
-- The two passes beside each other: what each step does to the two contexts.
use apcu.Prelude.{
  ℕ, ◌+◌, ◌≡◌, refl, sym, ap, ◌∙◌, Bool, true, false, not, ◌&&◌, ◌||◌, ◌==◌, is_some, arith, ==_iff,
}
use mathlib.Core.Path.{subst}
use apcu.Cache.Types.{Zval, string, array, object, resource, reference, Buckets, end, bucket}
use apcu.Persist.Zend.{Zend, num_of_elements}
use apcu.Persist.Calc.{Calc, contains, calc_memoize, add_size}
use apcu.Persist.Copy.{Copy, find_ptr, get_already_allocated, add_already_allocated, persist_alloc}

unfoldable pub is_empty_array : Zval → Bool
is_empty_array (array p info bs) = num_of_elements bs == 0
is_empty_array _ = false

-- What stands at an address is the same wherever it occurs in the value.
unfoldable mutual
  pub Agrees : (ℕ → Zval) → Zval → Type 0
  Agrees env (string p s) = env p ≡ string p s
  Agrees env (array p info bs) = (env p ≡ array p info bs) × AgreesIn env bs
  Agrees env (reference p z) = (env p ≡ reference p z) × Agrees env z
  Agrees env (object p) = env p ≡ object p
  Agrees env (resource p) = env p ≡ resource p
  Agrees env _ = Unit {0}

  pub AgreesIn : (ℕ → Zval) → Buckets → Type 0
  AgreesIn env end = Unit {0}
  AgreesIn env (bucket h key z bs) = Agrees env z × AgreesIn env bs

-- whether the tables have an address
unfoldable pub counted : Calc → ℕ → Bool
counted c p = c.memoization_needed && contains c.already_counted p

unfoldable pub held : Copy → ℕ → Bool
held k p = is_some (get_already_allocated k p)

-- An address was counted and not copied only where an empty array stands.
unfoldable pub Synced : (ℕ → Zval) → Calc → Copy → Type 0
Synced env c k =
    (k.memoization_needed ≡ c.memoization_needed)
    × (c.use_serialization ≡ false)
    × (k.use_serialization ≡ false)
    × (k.alloc_cur ≡ c.size)
    × ((p : ℕ) → held k p ≡ counted c p && not (is_empty_array (env p)))

-- What was counted stays counted.
unfoldable pub Grows : Calc → Calc → Type 0
Grows c d =
    (d.memoization_needed ≡ c.memoization_needed)
    × ((p : ℕ) → counted c p ≡ c.memoization_needed → counted d p ≡ c.memoization_needed)

pub Grows-refl : (c : Calc) → Grows c c
unfolding Grows
Grows-refl c = (refl, λ p e. e)

pub Grows-trans : (c d e : Calc) → Grows c d → Grows d e → Grows c e
unfolding Grows
Grows-trans c d e (m, f) (n, g) = (n ∙ m, λ p h. g p (f p h ∙ sym m) ∙ m)

pub counted-memoize :
    (c : Calc) (p q : ℕ)
    → counted (calc_memoize c p).1 q ≡ counted c q || (c.memoization_needed && (q == p))
unfolding counted calc_memoize contains
counted-memoize c p q = ground arith

held-add :
    (k : Copy) (p : ℕ) (v : Zval) (q : ℕ)
    → held (add_already_allocated p v k) q ≡ held k q || (k.memoization_needed && (q == p))
unfolding held get_already_allocated add_already_allocated find_ptr
held-add k p v q = ground arith

pub memoize-keeps :
    (c : Calc) (p : ℕ)
    → ((calc_memoize c p).1.memoization_needed ≡ c.memoization_needed)
      × ((calc_memoize c p).1.use_serialization ≡ c.use_serialization)
      × ((calc_memoize c p).1.size ≡ c.size)
unfolding calc_memoize
memoize-keeps c p = ground arith

add-keeps :
    (k : Copy) (p : ℕ) (v : Zval)
    → ((add_already_allocated p v k).memoization_needed ≡ k.memoization_needed)
      × ((add_already_allocated p v k).use_serialization ≡ k.use_serialization)
      × ((add_already_allocated p v k).alloc_cur ≡ k.alloc_cur)
unfolding add_already_allocated
add-keeps k p v = ground arith

pub memoize-counted : (c : Calc) (p : ℕ) → counted c p ≡ true → calc_memoize c p ≡ (true, c)
unfolding counted calc_memoize
memoize-counted c p h = ground arith

pub memoize-new : (c : Calc) (p : ℕ) → counted c p ≡ false → (calc_memoize c p).0 ≡ false
unfolding counted calc_memoize
memoize-new c p h = ground arith

-- An address of something else than an empty array enters both tables.
marked :
    (h c k m x e : Bool)
    → k ≡ m
    → h ≡ c && not e
    → (x ≡ true → e ≡ false)
    → h || (k && x) ≡ (c || (m && x)) && not e
marked h c k m x e p q r = ground arith

-- an empty one enters the table of the first pass only
marked_empty :
    (h c m x e : Bool) → h ≡ c && not e → (x ≡ true → e ≡ true) → h ≡ (c || (m && x)) && not e
marked_empty h c m x e q r = ground arith

there_already :
    (h c k m x e : Bool)
    → k ≡ m
    → h ≡ c && not e
    → (x ≡ true → e ≡ false)
    → (x ≡ true → c ≡ m)
    → h || (k && x) ≡ c && not e
there_already h c k m x e p q r s = ground arith

module _ (zend : Zend) (env : ℕ → Zval) where
  at_address :
      (b : Bool) (p q : ℕ)
      → is_empty_array (env p) ≡ b
      → (q == p) ≡ true
      → is_empty_array (env q) ≡ b
  at_address b p q e h = subst (λ (r : ℕ). is_empty_array (env r) ≡ b) (sym ((==_iff q p).0 h)) e

  -- the same number of bytes
  pub alloc-Synced :
      (n : ℕ) (c : Calc) (k : Copy)
      → Synced env c k
      → Synced env (add_size zend n c) (persist_alloc zend n k)
  unfolding Synced add_size persist_alloc held counted get_already_allocated
  alloc-Synced n c k (m, u, w, a, t) = (m, u, w, ap (λ s. s + zend.aligned_size n) a, t)

  pub mark-Synced :
      (p : ℕ) (v : Zval) (c : Calc) (k : Copy)
      → is_empty_array (env p) ≡ false
      → Synced env c k
      → Synced env (calc_memoize c p).1 (add_already_allocated p v k)
  unfolding Synced
  mark-Synced p v c k full (m, u, w, a, t) =
      let (m₁, u₁, a₁) = memoize-keeps c p in
      let (m₂, u₂, a₂) = add-keeps k p v in
      (
        m₂ ∙ m ∙ sym m₁,
        u₁ ∙ u,
        u₂ ∙ w,
        a₂ ∙ a ∙ sym a₁,
        λ q.
            held-add k p v q
            ∙ marked (held k q) (counted c q) k.memoization_needed c.memoization_needed (q == p)
                (is_empty_array (env q)) m (t q) (at_address false p q full)
            ∙ ap (λ b. b && not (is_empty_array (env q))) (sym (counted-memoize c p q)),
      )

  pub mark_empty-Synced :
      (p : ℕ) (c : Calc) (k : Copy)
      → is_empty_array (env p) ≡ true
      → Synced env c k
      → Synced env (calc_memoize c p).1 k
  unfolding Synced
  mark_empty-Synced p c k empty (m, u, w, a, t) =
      let (m₁, u₁, a₁) = memoize-keeps c p in
      (
        m ∙ sym m₁,
        u₁ ∙ u,
        w,
        a ∙ sym a₁,
        λ q.
            marked_empty (held k q) (counted c q) c.memoization_needed (q == p)
              (is_empty_array (env q)) (t q) (at_address true p q empty)
            ∙ ap (λ b. b && not (is_empty_array (env q))) (sym (counted-memoize c p q)),
      )

  -- The complete tree of an address in the table takes the place of the first one.
  pub again-Synced :
      (p : ℕ) (v : Zval) (c : Calc) (k : Copy)
      → is_empty_array (env p) ≡ false
      → counted c p ≡ c.memoization_needed
      → Synced env c k
      → Synced env c (add_already_allocated p v k)
  unfolding Synced
  again-Synced p v c k full there (m, u, w, a, t) =
      let (m₂, u₂, a₂) = add-keeps k p v in
      (
        m₂ ∙ m,
        u,
        u₂ ∙ w,
        a₂ ∙ a,
        λ q.
            held-add k p v q
            ∙ there_already (held k q) (counted c q) k.memoization_needed c.memoization_needed
                (q == p) (is_empty_array (env q)) m (t q) (at_address false p q full)
                (λ h.
                  subst (λ (r : ℕ). counted c r ≡ c.memoization_needed) (sym ((==_iff q p).0 h))
                    there),
      )
