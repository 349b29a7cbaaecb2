-- ===== src/Persist/Restored.antt =====
-- An array is stored without a serializer and fetched again.
use mathlib.Core.Path.{subst}
use apcu.Prelude.{
  ℕ, ◌<◌, ◌≡◌, refl, sym, ap, ◌∙◌, Bool, true, false, not, Option, none, some, [], ◌==◌, length,
  if◌then◌else◌, arith, ◌>>=◌,
}
use apcu.Cache.Types.{
  ZendString, Zval, undef, null_value, false_value, true_value, long, double, string, array, object,
  resource, reference, indirect, ptr, HashInfo, Buckets, end,
}
use apcu.Persist.Zend.{Zend, num_of_elements}
use apcu.Persist.Calc.{Calc, contains, calc}
use apcu.Persist.Copy.{
  Copy, find_ptr, get_already_allocated, persist_alloc, copy_zval, copy_packed, copy_buckets,
  copy_ht, reset_info,
}
use apcu.Persist.Unpersist.{Unpersist, get_already_copied, unpersist, apc_codec, unpersist_zval}
use apcu.Persist.Entry.{
  is_array, first_context, second_context, copy_context, measured, create_entry, persist,
}
use apcu.Persist.Bounds.{first_pass-plain}
use apcu.Persist.Sync.{Agrees}
use apcu.Persist.Content.{content, blank_info, Apart}
use apcu.Persist.Sim.{Sim}
use apcu.Persist.Back.{Done, once_miss}
use apcu.Persist.RoundTrip.{zval-Done}

unfoldable back : Unpersist
back = record { memoization_needed = true; already_copied = []; next_address = 1 }

array-unpersist :
    (zend : Zend) (v : Zval)
    → is_array v ≡ true
    → unpersist zend none v ≡ some (unpersist_zval zend v back).0
unfolding unpersist is_array back
array-unpersist zend (array p info bs) h = refl
array-unpersist zend undef h = ground arith
array-unpersist zend null_value h = ground arith
array-unpersist zend false_value h = ground arith
array-unpersist zend true_value h = ground arith
array-unpersist zend (long n) h = ground arith
array-unpersist zend (double n) h = ground arith
array-unpersist zend (string p s) h = ground arith
array-unpersist zend (object p) h = ground arith
array-unpersist zend (resource p) h = ground arith
array-unpersist zend (reference p z) h = ground arith
array-unpersist zend (indirect p) h = ground arith
array-unpersist zend (ptr p s) h = ground arith

module _ (zend : Zend) (env : ℕ → Zval)
    (strings : (n : ℕ) → 0 < zend.aligned_size (zend.zstr_struct_size n))
    (tables : 0 < zend.aligned_size zend.sizeof_hash_table)
    (references : 0 < zend.aligned_size zend.sizeof_reference)
    (empty : content zend.empty_array ≡ array 0 blank_info end) where
  clash : true ≡ false → ⊥
  clash e = ground arith

  start-Sim :
      (n : ℕ) (d : Calc)
      → 0 < zend.aligned_size n
      → d.memoization_needed ≡ true
      → d.use_serialization ≡ false
      → Sim env [] [] (persist_alloc zend n (copy_context d)) back
  unfolding persist_alloc copy_context back contains get_already_copied get_already_allocated
      find_ptr
  start-Sim n d room memo plain = record {
    memo = memo;
    plain = plain;
    memo_back = refl;
    begun = omega (arith, room);
    opened = λ o h. absurd (clash (sym h));
    below = λ o w h. absurd (nothing w h);
    matched = λ p v h c. absurd (neither d.memoization_needed v h);
  }
    where
      nothing : (w : Zval) → none ≡ some w → ⊥
      nothing w h = cc

      neither : (b : Bool) (w : Zval) → (if b then none else none) ≡ some w → ⊥
      neither true w h = cc
      neither false w h = cc

  kept-is_array :
      (p : ℕ) (info : HashInfo) (bs : Buckets) (n : ℕ) (d : Calc)
      → d.use_serialization ≡ false
      → is_array (copy_zval zend (array p info bs) (persist_alloc zend n (copy_context d))).0 ≡ true
  unfolding copy_zval is_array copy_ht persist_alloc copy_context get_already_allocated find_ptr
  kept-is_array p info bs n d plain =
      subst (λ (r : Zval × Copy). is_array r.0 ≡ true)
        (sym (
          once_miss zend env (persist_alloc zend n (copy_context d)) p _ plain
            (nothing d.memoization_needed)))
        (either (num_of_elements bs == 0))
    where
      k : Copy
      k = persist_alloc zend n (copy_context d)

      no_zval : Option Zval
      no_zval = none

      nothing : (b : Bool) → (if b then none else no_zval) ≡ none
      nothing true = refl
      nothing false = refl

      either :
          (b : Bool)
          → is_array
              (if b
                then (array 0 info end, k)
                else copy_ht zend p info bs
                    (if info.packed
                      then copy_packed zend 0 bs (reset_info info)
                      else copy_buckets zend 0 bs (reset_info info))
                    k).0
            ≡ true
      either true = refl
      either false = refl

  -- Where the aligned sizes of strings, of the structs of arrays and references, and of the entry are
  -- not 0, the empty array of the engine is one, what stands at an address is the same wherever it
  -- occurs in an array, no part of the array lies inside itself, no serializer is set and the first
  -- pass of apc_persist_calc counts all parts: apc_persist keeps the array, and what apc_unpersist
  -- makes of the kept one has the same keys and values in the same order, holes left out, down to the
  -- arrays, references and strings inside, whatever their addresses and hashes.
  pub unpersist-array :
      (key : ZendString) (p : ℕ) (info : HashInfo) (bs : Buckets)
      → 0 < zend.aligned_size (zend.entry_size (length key.val))
      → Agrees env (array p info bs)
      → Apart [] (array p info bs)
      → (calc zend none key (array p info bs) (first_context none (array p info bs))).0 ≡ true
      → (w : Zval) × (((apc_codec zend none).persist key (array p info bs) >>= λ (r : ℕ × Zval).
            (apc_codec zend none).unpersist r.1)
          ≡ some w)
        × (content w ≡ content (array p info bs))
  unfolding apc_codec persist measured create_entry first_context is_array Done
  unpersist-array key p info bs room a apart ok =
      let z = array p info bs in
      let first = calc zend none key z (first_context none z) in
      let (memo, plain) =
        first_pass-plain zend none env key z (first_context none z) a refl refl refl ok in
      let second = calc zend none key z second_context in
      let n = zend.entry_size (length key.val) in
      let k = persist_alloc zend n (copy_context first.1) in
      let kept = (copy_zval zend z k).0 in
      let done =
        zval-Done zend env strings tables references empty z [] [] k back a apart
          (start-Sim n first.1 room memo plain) in
      (
        (unpersist_zval zend kept back).0,
        ap
              (λ (b : Bool).
                elim (if b
                    then some first.1
                    else if not first.1.use_serialization
                    then none
                    else if second.0
                    then some second.1
                    else none)
                  as (λ (o : Option Calc). Option (ℕ × Zval)) [
                    | none ↦ none
                    | some ctxt ↦ some (ctxt.size, (create_entry zend key z (copy_context ctxt)).0)
                  ]
                >>= λ (r : ℕ × Zval). unpersist zend none r.1)
              ok
            ∙ array-unpersist zend kept (kept-is_array p info bs n first.1 plain),
        done.0,
      )
