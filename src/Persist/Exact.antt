-- ===== src/Persist/Exact.antt =====
-- The second pass allocates what the first one counted.
use apcu.Prelude.{
  ℕ, suc, ◌≡◌, refl, sym, ap, ◌∙◌, Bool, true, false, Option, none, ◌==◌, if◌then◌else◌, inl, inr,
  Bool-cases, length,
}
use apcu.Prelude.Int.{pos}
use mathlib.Core.Path.{subst}
use apcu.Cache.Types.{
  Zval, undef, null_value, false_value, true_value, long, double, string, array, object, resource,
  reference, indirect, ptr, HashInfo, Buckets, end, bucket,
}
use apcu.Persist.Zend.{Zend, Serializer, is_undef, num_of_elements}
use apcu.Persist.Calc.{
  Calc, calc_memoize, add_size, add_size_str, add_key, calc_zval, calc_packed, calc_buckets,
  calc_slot,
}
use apcu.Persist.Copy.{
  Copy, add_already_allocated, persist_alloc, settle, reset_info, copy_key, copy_zstr, copy_zval,
  copy_packed, copy_buckets,
}
use apcu.Persist.Sync.{is_empty_array, Agrees, AgreesIn, Synced}
use apcu.Persist.Steps.{
  start-Synced, full_at, string-Step, key-Step, finish-Step, empty-Step, Step-trans, slot-Step,
  still-Step, went_on, either-Loop, ht-Step, never, synced,
}
use apcu.Persist.Once.{Step, once-Step, size-Grows, memoize-there}

module _ (zend : Zend) (serializer : Option Serializer) (env : ℕ → Zval) where
  mutual
    unfolding calc_zval calc_packed calc_buckets copy_zval copy_packed copy_buckets Agrees AgreesIn
        is_empty_array

    pub zval-Step :
        (z : Zval) (c : Calc) (k : Copy)
        → Agrees env z
        → Synced env c k
        → (calc_zval zend serializer z c).0 ≡ true
        → Step env c (calc_zval zend serializer z c).1 (copy_zval zend z k).1
    zval-Step undef c k a s ok = still-Step zend serializer env c k s
    zval-Step null_value c k a s ok = still-Step zend serializer env c k s
    zval-Step false_value c k a s ok = still-Step zend serializer env c k s
    zval-Step true_value c k a s ok = still-Step zend serializer env c k s
    zval-Step (long n) c k a s ok = still-Step zend serializer env c k s
    zval-Step (double bits) c k a s ok = still-Step zend serializer env c k s
    zval-Step (indirect p) c k a s ok = still-Step zend serializer env c k s
    zval-Step (ptr p v) c k a s ok = still-Step zend serializer env c k s
    zval-Step (object p) c k a s ok =
        once-Step zend serializer env c k (object p) p
          (λ d. (false, record d { use_serialization = true })) (λ l. (object p, l))
          (full_at zend serializer env p (object p) a refl) s ok
          (λ e. absurd (never zend serializer env e))
    zval-Step (resource p) c k a s ok =
        once-Step zend serializer env c k (resource p) p (λ d. (false, d)) (λ l. (resource p, l))
          (full_at zend serializer env p (resource p) a refl) s ok
          (λ e. absurd (never zend serializer env e))
    zval-Step (string p v) c k a s ok =
        let full = full_at zend serializer env p (string p v) a refl in
        once-Step zend serializer env c k (string p v) p
          (λ d. (true, add_size_str zend (length v.val) d)) (copy_zstr zend p v) full s ok
          (λ e. string-Step zend serializer env p v c k full s)
    zval-Step (reference p z) c k (a, az) s ok =
        let full = full_at zend serializer env p (reference p z) a refl in
        let n = zend.sizeof_reference in
        let c₁ = (calc_memoize c p).1 in
        let k₁ = add_already_allocated p (reference k.alloc_cur undef) (persist_alloc zend n k) in
        once-Step zend serializer env c k (reference p z) p
          (λ d. calc_zval zend serializer z (add_size zend n d)) _ full s ok
          (λ e.
            finish-Step zend serializer env p (reference k.alloc_cur (copy_zval zend z k₁).0) c₁
              (add_size zend n c₁) (calc_zval zend serializer z (add_size zend n c₁)).1
              (copy_zval zend z k₁).1 full (memoize-there c p) (size-Grows zend n c₁)
              (zval-Step z (add_size zend n c₁) k₁ az
                (start-Synced zend serializer env n p (reference k.alloc_cur undef) c k full s) e))
    zval-Step (array p info bs) c k (a, az) s ok = elim (Bool-cases (num_of_elements bs == 0)) [
      | inl h ↦ empty-Step zend serializer env p info bs c k h (a, az) s
      | inr h ↦
          let full = full_at zend serializer env p (array p info bs) a h in
          rw h (
            once-Step zend serializer env c k (array p info bs) p _ _ full s (rw h at ok) (λ e.
              ht-Step zend serializer env p info bs c k _ _ full s
                (either-Loop zend serializer env info.packed (calc_packed zend serializer bs)
                  (calc_buckets zend serializer bs) (copy_packed zend 0 bs (reset_info info))
                  (copy_buckets zend 0 bs (reset_info info))
                  (λ d l. packed-Step 0 bs (reset_info info) d l az)
                  (λ d l. buckets-Step 0 bs (reset_info info) d l az))
                e))
    ]

    packed-Step :
        (idx : ℕ) (bs : Buckets) (info : HashInfo) (c : Calc) (k : Copy)
        → AgreesIn env bs
        → Synced env c k
        → (calc_packed zend serializer bs c).0 ≡ true
        → Step env c (calc_packed zend serializer bs c).1 (copy_packed zend idx bs info k).1.1
    packed-Step idx end info c k a s ok = still-Step zend serializer env c k s
    packed-Step idx (bucket h key z bs) info c k (a, as') s ok =
        let r = calc_zval zend serializer z c in
        let (fine, e) = went_on zend serializer env r (calc_packed zend serializer bs r.1) ok in
        let first = zval-Step z c k a s fine in
        let info' = if is_undef z then info else settle idx (pos idx) none info in
        let l = (copy_zval zend z k).1 in
        let rest =
          packed-Step (suc idx) bs info' r.1 l as' (synced zend serializer env c r.1 l first)
            (ap (λ (x : Bool × Calc). x.0) (sym e) ∙ ok) in
        subst (λ (x : Bool × Calc). Step env c x.1 (copy_packed zend (suc idx) bs info' l).1.1)
          (sym e)
          (Step-trans zend serializer env c r.1 (calc_packed zend serializer bs r.1).1 l
            (copy_packed zend (suc idx) bs info' l).1.1 first rest)

    buckets-Step :
        (idx : ℕ) (bs : Buckets) (info : HashInfo) (c : Calc) (k : Copy)
        → AgreesIn env bs
        → Synced env c k
        → (calc_buckets zend serializer bs c).0 ≡ true
        → Step env c (calc_buckets zend serializer bs c).1 (copy_buckets zend idx bs info k).1.1
    buckets-Step idx end info c k a s ok = still-Step zend serializer env c k s
    buckets-Step idx (bucket h key z bs) info c k (a, as') s ok =
        let d = add_key zend key c in
        let m = (copy_key zend key k).1 in
        let keyed = key-Step zend serializer env key c k s in
        let r = calc_slot z c (calc_zval zend serializer z d) in
        let (fine, e) = went_on zend serializer env r (calc_buckets zend serializer bs r.1) ok in
        let info' = if is_undef z then info else settle idx h key info in
        let l = if is_undef z then k else (copy_zval zend z m).1 in
        let first : Step env c r.1 l =
          slot-Step zend serializer env z c k (copy_zval zend z m).1 (calc_zval zend serializer z d)
            s fine
            (λ f.
              Step-trans zend serializer env c d (calc_zval zend serializer z d).1 m
                (copy_zval zend z m).1 keyed
                (zval-Step z d m a (synced zend serializer env c d m keyed) f)) in
        let rest =
          buckets-Step (suc idx) bs info' r.1 l as' (synced zend serializer env c r.1 l first)
            (ap (λ (x : Bool × Calc). x.0) (sym e) ∙ ok) in
        subst (λ (x : Bool × Calc). Step env c x.1 (copy_buckets zend (suc idx) bs info' l).1.1)
          (sym e)
          (Step-trans zend serializer env c r.1 (calc_buckets zend serializer bs r.1).1 l
            (copy_buckets zend (suc idx) bs info' l).1.1 first rest)
