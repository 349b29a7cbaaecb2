-- ===== src/Persist/Tables.antt =====
-- The table of a copy and that of the way back: what an addition does, and what a hit gives.
use apcu.Prelude.{ℕ, ◌≡◌, refl, true, none, some, ◌==◌, if◌then◌else◌, arith}
use apcu.Cache.Types.{
  Zval, undef, null_value, false_value, true_value, long, double, string, array, object, resource,
  reference, indirect, ptr,
}
use apcu.Persist.Zend.{Zend}
use apcu.Persist.Copy.{Copy, find_ptr, get_already_allocated, add_already_allocated}
use apcu.Persist.Unpersist.{
  Unpersist, get_already_copied, add_already_copied, unpersist_zval, unpersisted_once,
}
use apcu.Persist.Content.{offset_of}

pub kept-add :
    (k : Copy) (p : ℕ) (v : Zval) (q : ℕ)
    → k.memoization_needed ≡ true
    → get_already_allocated (add_already_allocated p v k) q
      ≡ (if q == p then some v else get_already_allocated k q)
unfolding get_already_allocated add_already_allocated find_ptr
kept-add k p v q h = ground arith

pub found-add :
    (u : Unpersist) (o : ℕ) (w : Zval) (x : ℕ)
    → u.memoization_needed ≡ true
    → get_already_copied (add_already_copied o w u) x
      ≡ (if x == o then some w else get_already_copied u x)
unfolding get_already_copied add_already_copied find_ptr
found-add u o w x h = ground arith

once-found :
    (u : Unpersist) (o : ℕ) (w : Zval) (copy : Unpersist → Zval × Unpersist)
    → get_already_copied u o ≡ some w
    → unpersisted_once u o copy ≡ (w, u)
unfolding unpersisted_once
once-found u o w copy f = rw (unpersisted_once, f) refl

pub once-missing :
    (u : Unpersist) (o : ℕ) (copy : Unpersist → Zval × Unpersist)
    → get_already_copied u o ≡ none
    → unpersisted_once u o copy ≡ copy u
unfolding unpersisted_once
once-missing u o copy f = rw (unpersisted_once, f) refl

-- A value whose offset was met before is that of the table.
pub unpersist_zval-found :
    (zend : Zend) (v : Zval) (u : Unpersist) (o : ℕ) (w : Zval)
    → offset_of v ≡ some o
    → get_already_copied u o ≡ some w
    → unpersist_zval zend v u ≡ (w, u)
unfolding unpersist_zval offset_of
unpersist_zval-found zend (string p s) u o w a f = let e : p ≡ o = cc in once-found u p w _ (rw e f)
unpersist_zval-found zend (array p info bs) u o w a f =
    let e : p ≡ o = cc in once-found u p w _ (rw e f)
unpersist_zval-found zend (reference p z) u o w a f =
    let e : p ≡ o = cc in once-found u p w _ (rw e f)
unpersist_zval-found zend undef u o w a f = cc
unpersist_zval-found zend null_value u o w a f = cc
unpersist_zval-found zend false_value u o w a f = cc
unpersist_zval-found zend true_value u o w a f = cc
unpersist_zval-found zend (long n) u o w a f = cc
unpersist_zval-found zend (double n) u o w a f = cc
unpersist_zval-found zend (object p) u o w a f = cc
unpersist_zval-found zend (resource p) u o w a f = cc
unpersist_zval-found zend (indirect p) u o w a f = cc
unpersist_zval-found zend (ptr p s) u o w a f = cc

pub add-memo :
    (k : Copy) (p : ℕ) (v : Zval)
    → ((add_already_allocated p v k).memoization_needed ≡ k.memoization_needed)
      × ((add_already_allocated p v k).use_serialization ≡ k.use_serialization)
      × ((add_already_allocated p v k).alloc_cur ≡ k.alloc_cur)
unfolding add_already_allocated
add-memo k p v = ground arith

pub back-memo :
    (u : Unpersist) (o : ℕ) (w : Zval)
    → (add_already_copied o w u).memoization_needed ≡ u.memoization_needed
unfolding add_already_copied
back-memo u o w = ground arith
