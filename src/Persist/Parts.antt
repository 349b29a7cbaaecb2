-- ===== src/Persist/Parts.antt =====
-- The parts of a value on both ways: what a key, a bucket and a hole leave, and which loop is taken.
use mathlib.Core.Path.{subst}
use apcu.Prelude.{
  ℕ, suc, ◌<◌, ◌≡◌, refl, sym, ap, Bool, true, false, Option, none, some, List, ◌∷◌, length,
  if◌then◌else◌, Bool-cases, inl, inr,
}
use apcu.Prelude.Int.{ℤ, pos}
use apcu.Cache.Types.{ZendString, Zval, undef, HashInfo, Buckets, bucket}
use apcu.Persist.Zend.{Zend, is_undef}
use apcu.Persist.Copy.{
  Copy, copy_key, copy_zstr_no_add, copy_cstr, copy_zval, copy_buckets, reset_info, settle,
}
use apcu.Persist.Unpersist.{
  Unpersist, unpersist_zval, unpersist_values, unpersist_static, unpersist_buckets, dup_key,
}
use apcu.Persist.Content.{content, content_in, key_content}
use apcu.Persist.Sim.{Sim, alloc-Sim, emalloc-Sim}
use apcu.Persist.Grown.{open-Sim}
use apcu.Persist.Back.{Done, DoneIn, begun_copy, begun_back, loop_back}
use apcu.Persist.Kept.{bucket-content}

module _ (zend : Zend) (env : ℕ → Zval) where
  pub copied_key-Sim :
      (key : Option (ℕ × ZendString)) (ps os : List ℕ) (k : Copy) (u : Unpersist)
      → Sim env ps os k u
      → (key_content (copy_key zend key k).0 ≡ key_content key)
        × Sim env ps os (copy_key zend key k).1 u
  unfolding copy_key copy_zstr_no_add copy_cstr
  copied_key-Sim none ps os k u s = (refl, s)
  copied_key-Sim (some (p, t)) ps os k u s =
      (refl, alloc-Sim zend env (zend.zstr_struct_size (length t.val)) ps os k u s)

  pub dup_key-Sim :
      (key : Option (ℕ × ZendString)) (ps os : List ℕ) (k : Copy) (u : Unpersist)
      → Sim env ps os k u
      → (key_content (dup_key key u).0 ≡ key_content key) × Sim env ps os k (dup_key key u).1
  unfolding dup_key
  dup_key-Sim none ps os k u s = (refl, s)
  dup_key-Sim (some (p, t)) ps os k u s = (refl, emalloc-Sim zend env ps os k u s)

  -- the loop on the way back, whichever it is
  pub loop-Done :
      (ps os : List ℕ) (info : HashInfo) (bs kept : Buckets) (k : Copy) (u : Unpersist)
      → (info.packed ≡ true → DoneIn zend env ps os bs (unpersist_values zend kept u) k)
      → (info.packed ≡ false
          → info.static_keys ≡ true
          → DoneIn zend env ps os bs (unpersist_static zend kept u) k)
      → (info.packed ≡ false → DoneIn zend env ps os bs (unpersist_buckets zend kept u) k)
      → DoneIn zend env ps os bs (loop_back zend env info kept u) k
  unfolding loop_back
  loop-Done ps os info bs kept k u values static buckets = elim (Bool-cases info.packed) [
    | inl h ↦ rw h (values h)
    | inr h ↦ elim (Bool-cases info.static_keys) [
      | inl s ↦ rw (h, s) (static h s)
      | inr s ↦ rw (h, s) (buckets h)
    ]
  ]

  pub reset-packed : (info : HashInfo) → (reset_info info).packed ≡ info.packed
  unfolding reset_info
  reset-packed info = refl

  pub begun-Sim :
      (n p : ℕ) (v w : Zval) (ps os : List ℕ) (k : Copy) (u : Unpersist)
      → 0 < zend.aligned_size n
      → Sim env ps os k u
      → Sim env
          (p ∷ ps)
          (k.alloc_cur ∷ os)
          (begun_copy zend env n p v k)
          (begun_back zend env k.alloc_cur w u)
  unfolding begun_copy begun_back
  begun-Sim n p v w ps os k u room sim = open-Sim zend env n p v w ps os k u room sim

  -- A value without an address stays.
  pub still-Done :
      (z : Zval) (ps os : List ℕ) (k : Copy) (u : Unpersist)
      → unpersist_zval zend z u ≡ (z, u)
      → Sim env ps os k u
      → Done zend env ps os z (z, k) u
  unfolding Done
  still-Done z ps os k u same sim =
      subst (λ (b : Zval × Unpersist). (content b.0 ≡ content z) × Sim env ps os k b.1) (sym same)
        (refl, sim)

  -- One bucket is taken back, then the rest of them.
  pub bucket-Done :
      (ps os : List ℕ) (h : ℤ) (key key' : Option (ℕ × ZendString)) (z : Zval) (bs : Buckets)
      (v : Zval) (b : Buckets × Unpersist) (k : Copy)
      → key_content key' ≡ key_content key
      → content v ≡ content z
      → DoneIn zend env ps os bs b k
      → DoneIn zend env ps os (bucket h key z bs) (bucket h key' v b.0, b.1) k
  unfolding DoneIn
  bucket-Done ps os h key key' z bs v b k same_key same (rest, sim) =
      (bucket-content h key key' z v bs b.0 same_key same rest, sim)

  -- A hole leaves no content.
  pub hole-Done :
      (ps os : List ℕ) (h h' : ℤ) (key key' : Option (ℕ × ZendString)) (bs : Buckets)
      (b : Buckets × Unpersist) (k : Copy)
      → DoneIn zend env ps os bs b k
      → DoneIn zend env ps os (bucket h key undef bs) (bucket h' key' undef b.0, b.1) k
  unfolding DoneIn content_in content is_undef
  hole-Done ps os h h' key key' bs b k done = done

  -- one pass of each loop over buckets with hashes, at a value that is no hole
  pub copied_there :
      (idx : ℕ) (h : ℤ) (key : Option (ℕ × ZendString)) (z : Zval) (bs : Buckets) (info : HashInfo)
      (k : Copy)
      → is_undef z ≡ false
      → (let t = copy_key zend key k in
          let r = copy_zval zend z t.1 in
          let s = copy_buckets zend (suc idx) bs (settle idx h key info) r.1 in
          copy_buckets zend idx (bucket h key z bs) info k ≡ (bucket h t.0 r.0 s.0, s.1))
  unfolding copy_buckets
  copied_there idx h key z bs info k there =
      let t = copy_key zend key k in
      let r = copy_zval zend z t.1 in
      ap
        (λ (b : Bool).
          let s =
            copy_buckets zend (suc idx) bs (if b then info else settle idx h key info)
              (if b then k else r.1) in
          (bucket h (if b then key else t.0) r.0 s.0, s.1))
        there

  pub back_there :
      (h : ℤ) (key : Option (ℕ × ZendString)) (v : Zval) (bs : Buckets) (u : Unpersist)
      → is_undef v ≡ false
      → (let t = dup_key key u in
          let b = unpersist_zval zend v t.1 in
          let c = unpersist_buckets zend bs b.1 in
          unpersist_buckets zend (bucket h key v bs) u ≡ (bucket h t.0 b.0 c.0, c.1))
  unfolding unpersist_buckets
  back_there h key v bs u there =
      let t = dup_key key u in
      let b = unpersist_zval zend v t.1 in
      ap
        (λ (e : Bool).
          let c = unpersist_buckets zend bs (if e then u else b.1) in
          (if e then bucket (pos 0) none undef c.0 else bucket h t.0 b.0 c.0, c.1))
        there
