-- ===== src/Persist/RoundTrip.antt =====
-- A value with its parts is copied into an entry and taken back, by induction on the value.
use mathlib.Core.Path.{subst}
use apcu.Prelude.{
  ℕ, suc, ◌<◌, ◌≡◌, refl, sym, ap, ◌∙◌, Bool, true, false, Option, none, some, List, ◌∷◌, ◌==◌,
  length, if◌then◌else◌, arith, Bool-cases, inl, inr,
}
use apcu.Prelude.Int.{pos}
use apcu.Cache.Types.{
  ZendString, Zval, undef, null_value, false_value, true_value, long, double, string, array, object,
  resource, reference, indirect, ptr, HashInfo, Buckets, end, bucket,
}
use apcu.Persist.Zend.{Zend, is_undef, num_of_elements, ht_data_size}
use apcu.Persist.Copy.{
  Copy, persist_alloc, add_already_allocated, copy_zstr, copy_key, copy_zval, copy_packed,
  copy_buckets, copy_ht, reset_info, settle,
}
use apcu.Persist.Unpersist.{
  Unpersist, unpersist_zval, unpersist_values, unpersist_static, unpersist_buckets, stray_key,
  dup_key,
}
use apcu.Persist.Sync.{Agrees, AgreesIn}
use apcu.Persist.Content.{content, key_content, blank_info, Apart, ApartIn}
use apcu.Persist.Sim.{Sim, alloc-Sim}
use apcu.Persist.Back.{
  Done, DoneIn, once-Done, string-Done, reference-Done, ht-Done, empty-Done, begun_copy, begun_back,
  loop_back,
}
use apcu.Persist.Kept.{
  copy_packed-packed, copy_buckets-packed, static-no_key, undef_there, kept_there,
}
use apcu.Persist.Parts.{
  copied_key-Sim, dup_key-Sim, loop-Done, reset-packed, begun-Sim, still-Done, bucket-Done,
  hole-Done, copied_there, back_there,
}

module _ (zend : Zend) (env : ℕ → Zval)
    (strings : (n : ℕ) → 0 < zend.aligned_size (zend.zstr_struct_size n))
    (tables : 0 < zend.aligned_size zend.sizeof_hash_table)
    (references : 0 < zend.aligned_size zend.sizeof_reference)
    (empty : content zend.empty_array ≡ array 0 blank_info end) where
  clash : true ≡ false → ⊥
  clash e = ground arith

  no_key_stays :
      (key : Option (ℕ × ZendString)) (k : Copy)
      → key ≡ none
      → key_content (stray_key zend (copy_key zend key k).0) ≡ key_content key
  unfolding stray_key copy_key
  no_key_stays none k e = refl
  no_key_stays (some x) k e = cc

  packed_still :
      (info : HashInfo) (bs : Buckets) (k : Copy)
      → info.packed ≡ true
      → (copy_packed zend 0 bs (reset_info info) k).1.0.packed ≡ true
  packed_still info bs k e =
      copy_packed-packed zend 0 bs (reset_info info) k ∙ reset-packed zend env info ∙ e

  hashed_still :
      (info : HashInfo) (bs : Buckets) (k : Copy)
      → info.packed ≡ false
      → (copy_buckets zend 0 bs (reset_info info) k).1.0.packed ≡ false
  hashed_still info bs k e =
      copy_buckets-packed zend 0 bs (reset_info info) k ∙ reset-packed zend env info ∙ e

  mutual
    unfolding copy_zval Agrees AgreesIn Apart ApartIn unpersist_zval Done DoneIn is_undef begun_copy

    pub zval-Done :
        (z : Zval) (ps os : List ℕ) (k : Copy) (u : Unpersist)
        → Agrees env z
        → Apart ps z
        → Sim env ps os k u
        → Done zend env ps os z (copy_zval zend z k) u
    zval-Done undef ps os k u a apart sim = still-Done zend env undef ps os k u refl sim
    zval-Done null_value ps os k u a apart sim = still-Done zend env null_value ps os k u refl sim
    zval-Done false_value ps os k u a apart sim = still-Done zend env false_value ps os k u refl sim
    zval-Done true_value ps os k u a apart sim = still-Done zend env true_value ps os k u refl sim
    zval-Done (long n) ps os k u a apart sim = still-Done zend env (long n) ps os k u refl sim
    zval-Done (double n) ps os k u a apart sim = still-Done zend env (double n) ps os k u refl sim
    zval-Done (indirect p) ps os k u a apart sim =
        still-Done zend env (indirect p) ps os k u refl sim
    zval-Done (ptr p s) ps os k u a apart sim = still-Done zend env (ptr p s) ps os k u refl sim
    zval-Done (object p) ps os k u a apart sim =
        once-Done zend env p (object p) (λ c. (object p, c)) ps os k u a apart sim
          (still-Done zend env (object p) ps os k u refl sim)
    zval-Done (resource p) ps os k u a apart sim =
        once-Done zend env p (resource p) (λ c. (resource p, c)) ps os k u a apart sim
          (still-Done zend env (resource p) ps os k u refl sim)
    zval-Done (string p s) ps os k u a apart sim =
        once-Done zend env p (string p s) (copy_zstr zend p s) ps os k u a apart sim
          (string-Done zend env p s ps os k u (strings (length s.val)) a sim)
    zval-Done (reference p z) ps os k u (a, az) (apart, below) sim =
        let v = reference k.alloc_cur undef in
        let w = reference u.next_address undef in
        let n = zend.sizeof_reference in
        once-Done zend env p (reference p z)
          (λ c.
            let r = copy_zval zend z (begun_copy zend env n p (reference c.alloc_cur undef) c) in
            let x = reference c.alloc_cur r.0 in (x, add_already_allocated p x r.1))
          ps os k u a apart sim
          (reference-Done zend env p z ps os k u a sim (
            zval-Done z (p ∷ ps) (k.alloc_cur ∷ os) (begun_copy zend env n p v k)
              (begun_back zend env k.alloc_cur w u) az below
              (begun-Sim zend env n p v w ps os k u references sim)))
    zval-Done (array p info bs) ps os k u (a, az) (apart, below) sim =
        let copied : Bool → Copy → Buckets × (HashInfo × Copy) = λ b.
          if b
          then copy_packed zend 0 bs (reset_info info)
          else copy_buckets zend 0 bs (reset_info info) in
        let n = zend.sizeof_hash_table in
        let v = array k.alloc_cur info end in
        let begun : Copy =
          persist_alloc zend (ht_data_size zend info bs) (begun_copy zend env n p v k) in
        let started : HashInfo → Unpersist =
          λ i. begun_back zend env k.alloc_cur (array u.next_address i end) u in
        let taken : Buckets × (HashInfo × Copy) → Buckets × Unpersist =
          λ r. loop_back zend env r.1.0 r.0 (started r.1.0) in
        let start : (i : HashInfo) → Sim env (p ∷ ps) (k.alloc_cur ∷ os) begun (started i) = λ i.
          alloc-Sim zend env (ht_data_size zend info bs) (p ∷ ps) (k.alloc_cur ∷ os)
            (begun_copy zend env n p v k) (started i)
            (begun-Sim zend env n p v (array u.next_address i end) ps os k u tables sim) in
        once-Done zend env p (array p info bs) _ ps os k u a apart sim
          (elim (Bool-cases (num_of_elements bs == 0)) [
            | inl h ↦
                subst
                  (λ (b : Bool).
                    Done zend env ps os (array p info bs)
                      (if b
                        then (array 0 info end, k)
                        else copy_ht zend p info bs (copied info.packed) k)
                      u)
                  (sym h) (empty-Done zend env p info bs ps os k u h empty sim)
            | inr h ↦
                subst
                  (λ (b : Bool).
                    Done zend env ps os (array p info bs)
                      (if b
                        then (array 0 info end, k)
                        else copy_ht zend p info bs (copied info.packed) k)
                      u)
                  (sym h)
                  (ht-Done zend env p info bs (copied info.packed) ps os k u a sim
                    (elim (Bool-cases info.packed) [
                      | inl e ↦
                          subst
                            (λ (b : Bool).
                              let r = copied b begun in
                              DoneIn zend env (p ∷ ps) (k.alloc_cur ∷ os) bs (taken r) r.1.1)
                            (sym e)
                            (let r = copied true begun in
                              loop-Done zend env (p ∷ ps) (k.alloc_cur ∷ os) r.1.0 bs r.0 r.1.1
                                (started r.1.0)
                                (λ f.
                                  packed-Done 0 bs (reset_info info) (p ∷ ps) (k.alloc_cur ∷ os)
                                    begun (started r.1.0) az below (start r.1.0))
                                (λ f g. absurd (clash (sym (packed_still info bs begun e) ∙ f)))
                                (λ f. absurd (clash (sym (packed_still info bs begun e) ∙ f))))
                      | inr e ↦
                          subst
                            (λ (b : Bool).
                              let r = copied b begun in
                              DoneIn zend env (p ∷ ps) (k.alloc_cur ∷ os) bs (taken r) r.1.1)
                            (sym e)
                            (let r = copied false begun in
                              loop-Done zend env (p ∷ ps) (k.alloc_cur ∷ os) r.1.0 bs r.0 r.1.1
                                (started r.1.0)
                                (λ f. absurd (clash (sym f ∙ hashed_still info bs begun e)))
                                (λ f g.
                                  static-Done 0 bs (reset_info info) (p ∷ ps) (k.alloc_cur ∷ os)
                                    begun (started r.1.0) az below (start r.1.0) g)
                                (λ f.
                                  buckets-Done 0 bs (reset_info info) (p ∷ ps) (k.alloc_cur ∷ os)
                                    begun (started r.1.0) az below (start r.1.0)))
                    ]))
          ])

    packed-Done :
        (idx : ℕ) (bs : Buckets) (info : HashInfo) (ps os : List ℕ) (k : Copy) (u : Unpersist)
        → AgreesIn env bs
        → ApartIn ps bs
        → Sim env ps os k u
        → (let r = copy_packed zend idx bs info k in
            DoneIn zend env ps os bs (unpersist_values zend r.0 u) r.1.1)
    packed-Done idx end info ps os k u a apart sim = (refl, sim)
    packed-Done idx (bucket h key z bs) info ps os k u (a, az) (apart, below) sim =
        let r = copy_zval zend z k in
        let b = unpersist_zval zend r.0 u in
        let (same, next) = zval-Done z ps os k u a apart sim in
        let info' = if is_undef z then info else settle idx (pos idx) none info in
        let s = copy_packed zend (suc idx) bs info' r.1 in
        bucket-Done zend env ps os h key key z bs b.0 (unpersist_values zend s.0 b.1) s.1.1 refl
          same (packed-Done (suc idx) bs info' ps os r.1 b.1 az below next)

    static-Done :
        (idx : ℕ) (bs : Buckets) (info : HashInfo) (ps os : List ℕ) (k : Copy) (u : Unpersist)
        → AgreesIn env bs
        → ApartIn ps bs
        → Sim env ps os k u
        → (copy_buckets zend idx bs info k).1.0.static_keys ≡ true
        → (let r = copy_buckets zend idx bs info k in
            DoneIn zend env ps os bs (unpersist_static zend r.0 u) r.1.1)
    static-Done idx end info ps os k u a apart sim f = (refl, sim)
    static-Done idx (bucket h key z bs) info ps os k u (a, az) (apart, below) sim f =
        elim (Bool-cases (is_undef z)) [
          | inl hole ↦
              let g : (copy_buckets zend (suc idx) bs info k).1.0.static_keys ≡ true =
                ap
                  (λ (b : Bool).
                    (copy_buckets zend (suc idx) bs (if b then info else settle idx h key info) (
                      if b
                      then k
                      else (copy_zval zend z (copy_key zend key k).1).1)).1.0.static_keys)
                  (sym hole)
                ∙ f in
              subst
                (λ (x : Zval).
                  let r = copy_buckets zend idx (bucket h key x bs) info k in
                  DoneIn zend env ps os (bucket h key x bs) (unpersist_static zend r.0 u) r.1.1)
                (undef_there z hole)
                (let s = copy_buckets zend (suc idx) bs info k in
                  hole-Done zend env ps os h h key (stray_key zend key) bs
                    (unpersist_static zend s.0 u) s.1.1
                    (static-Done (suc idx) bs info ps os k u az below sim g))
          | inr there ↦
              let t = copy_key zend key k in
              let (same_key, keyed) = copied_key-Sim zend env key ps os k u sim in
              let r = copy_zval zend z t.1 in
              let b = unpersist_zval zend r.0 u in
              let (same, next) = zval-Done z ps os t.1 u a apart keyed in
              let info' = settle idx h key info in
              let s = copy_buckets zend (suc idx) bs info' r.1 in
              let g : s.1.0.static_keys ≡ true =
                ap (λ (x : Buckets × (HashInfo × Copy)). x.1.0.static_keys)
                  (sym (copied_there zend env idx h key z bs info k there))
                ∙ f in
              let no_key = static-no_key zend idx h key bs info r.1 g in
              let stray : key_content (stray_key zend t.0) ≡ key_content key =
                no_key_stays key k no_key in
              subst
                (λ (x : Buckets × (HashInfo × Copy)).
                  DoneIn zend env ps os (bucket h key z bs) (unpersist_static zend x.0 u) x.1.1)
                (sym (copied_there zend env idx h key z bs info k there))
                (bucket-Done zend env ps os h key (stray_key zend t.0) z bs b.0
                  (unpersist_static zend s.0 b.1) s.1.1 stray same
                  (static-Done (suc idx) bs info' ps os r.1 b.1 az below next g))
        ]

    buckets-Done :
        (idx : ℕ) (bs : Buckets) (info : HashInfo) (ps os : List ℕ) (k : Copy) (u : Unpersist)
        → AgreesIn env bs
        → ApartIn ps bs
        → Sim env ps os k u
        → (let r = copy_buckets zend idx bs info k in
            DoneIn zend env ps os bs (unpersist_buckets zend r.0 u) r.1.1)
    buckets-Done idx end info ps os k u a apart sim = (refl, sim)
    buckets-Done idx (bucket h key z bs) info ps os k u (a, az) (apart, below) sim =
        elim (Bool-cases (is_undef z)) [
          | inl hole ↦
              subst
                (λ (x : Zval).
                  let r = copy_buckets zend idx (bucket h key x bs) info k in
                  DoneIn zend env ps os (bucket h key x bs) (unpersist_buckets zend r.0 u) r.1.1)
                (undef_there z hole)
                (let s = copy_buckets zend (suc idx) bs info k in
                  hole-Done zend env ps os h (pos 0) key none bs (unpersist_buckets zend s.0 u)
                    s.1.1 (buckets-Done (suc idx) bs info ps os k u az below sim))
          | inr there ↦
              let t = copy_key zend key k in
              let (same_key, keyed) = copied_key-Sim zend env key ps os k u sim in
              let r = copy_zval zend z t.1 in
              let d = dup_key t.0 u in
              let (same_dup, dupped) = dup_key-Sim zend env t.0 ps os t.1 u keyed in
              let b = unpersist_zval zend r.0 d.1 in
              let (same, next) = zval-Done z ps os t.1 d.1 a apart dupped in
              let info' = settle idx h key info in
              let s = copy_buckets zend (suc idx) bs info' r.1 in
              let c = unpersist_buckets zend s.0 b.1 in
              subst
                (λ (x : Buckets × (HashInfo × Copy)).
                  DoneIn zend env ps os (bucket h key z bs) (unpersist_buckets zend x.0 u) x.1.1)
                (sym (copied_there zend env idx h key z bs info k there))
                (subst
                  (λ (x : Buckets × Unpersist). DoneIn zend env ps os (bucket h key z bs) x s.1.1)
                  (sym (back_there zend env h t.0 r.0 s.0 u (kept_there zend r.0 z d.1 same there)))
                  (bucket-Done zend env ps os h key d.0 z bs b.0 c s.1.1 (same_dup ∙ same_key) same
                    (buckets-Done (suc idx) bs info' ps os r.1 b.1 az below next)))
        ]
