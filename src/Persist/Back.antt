-- ===== src/Persist/Back.antt =====
-- An array with its parts is copied into an entry and taken back: nothing but its addresses, its
-- hashes and its holes is changed.
use mathlib.Core.Path.{subst}
use apcu.Prelude.{
  ℕ, ◌<◌, ◌≡◌, refl, sym, ap, ◌∙◌, Bool, true, false, Option, none, some, List, ◌∷◌, ◌==◌, length,
  if◌then◌else◌, arith, inl, inr, Option-cases,
}
use apcu.Cache.Types.{ZendString, Zval, undef, string, array, reference, HashInfo, Buckets, end}
use apcu.Persist.Zend.{Zend, num_of_elements, ht_data_size}
use apcu.Persist.Calc.{contains}
use apcu.Persist.Copy.{
  Copy, get_already_allocated, add_already_allocated, persist_alloc, copied_once, copy_serialize,
  copy_zstr, copy_zstr_no_add, copy_cstr, copy_zval, copy_ht,
}
use apcu.Persist.Unpersist.{
  Unpersist, add_already_copied, emalloc, unpersist_zval, unpersist_zstr, unpersist_ht,
  unpersist_values, unpersist_static, unpersist_buckets,
}
use apcu.Persist.Content.{content, content_in, blank_info, content-empty, offset_of}
use apcu.Persist.Tables.{unpersist_zval-found, once-missing}
use apcu.Persist.Sim.{Sim, Matched, ahead, unopened}
use apcu.Persist.Grown.{new-Sim, close-Sim}

-- the copy `r` of a value, and what the way back makes of it
unfoldable pub Done : Zend → (ℕ → Zval) → List ℕ → List ℕ → Zval → Zval × Copy → Unpersist → Type 0
Done zend env ps os z r u =
    (content (unpersist_zval zend r.0 u).0 ≡ content z)
    × Sim env ps os r.1 (unpersist_zval zend r.0 u).1

module _ (zend : Zend) (env : ℕ → Zval) where
  once_hit :
      (k : Copy) (p : ℕ) (v : Zval) (copy : Copy → Zval × Copy)
      → k.use_serialization ≡ false
      → get_already_allocated k p ≡ some v
      → copied_once zend k p copy ≡ (v, k)
  unfolding copied_once
  once_hit k p v copy w h =
      ap
        (λ (b : Bool).
          if b
          then copy_serialize zend k
          else elim (get_already_allocated k p) [ none ↦ copy k | some v ↦ (v, k) ])
        w
      ∙ ap (λ (o : Option Zval). elim o [ none ↦ copy k | some v ↦ (v, k) ]) h

  pub once_miss :
      (k : Copy) (p : ℕ) (copy : Copy → Zval × Copy)
      → k.use_serialization ≡ false
      → get_already_allocated k p ≡ none
      → copied_once zend k p copy ≡ copy k
  unfolding copied_once
  once_miss k p copy w h =
      ap
        (λ (b : Bool).
          if b
          then copy_serialize zend k
          else elim (get_already_allocated k p) [ none ↦ copy k | some v ↦ (v, k) ])
        w
      ∙ ap (λ (o : Option Zval). elim o [ none ↦ copy k | some v ↦ (v, k) ]) h

  -- What stands at an address is copied once, and taken back once.
  pub once-Done :
      (p : ℕ) (z : Zval) (copy : Copy → Zval × Copy) (ps os : List ℕ) (k : Copy) (u : Unpersist)
      → env p ≡ z
      → contains ps p ≡ false
      → Sim env ps os k u
      → Done zend env ps os z (copy k) u
      → Done zend env ps os z (copied_once zend k p copy) u
  unfolding Done
  once-Done p z copy ps os k u e apart s next = elim (Option-cases (get_already_allocated k p)) [
    | inl h ↦
        subst (λ (r : Zval × Copy). Done zend env ps os z r u) (sym (once_miss k p copy s.plain h))
          next
    | inr (v, h) ↦
        subst (λ (r : Zval × Copy). Done zend env ps os z r u) (sym (once_hit k p v copy s.plain h))
          (kept v (s.matched p v h apart))
  ]
    where
      kept : (v : Zval) → Matched os u (env p) v → Done zend env ps os z (v, k) u
      kept v m =
          subst (λ (b : Zval × Unpersist). (content b.0 ≡ content z) × Sim env ps os k b.1)
            (sym (unpersist_zval-found zend v u m.off m.made m.at_off m.found))
            (m.same ∙ ap content e, s)

  pub string-Done :
      (p : ℕ) (s : ZendString) (ps os : List ℕ) (k : Copy) (u : Unpersist)
      → 0 < zend.aligned_size (zend.zstr_struct_size (length s.val))
      → env p ≡ string p s
      → Sim env ps os k u
      → Done zend env ps os (string p s) (copy_zstr zend p s k) u
  unfolding Done copy_zstr copy_zstr_no_add copy_cstr unpersist_zval content unpersist_zstr
      offset_of
  string-Done p s ps os k u room e sim =
      let r = copy_zstr_no_add zend s k in
      let o = k.alloc_cur in
      let w = string u.next_address r.0.1 in
      subst
        (λ (b : Zval × Unpersist).
          (content b.0 ≡ content (string p s))
          × Sim env ps os (add_already_allocated p (string o r.0.1) r.1) b.1)
        (sym (once-missing u o (unpersist_zstr o r.0.1) (ahead zend env ps os k u sim).1))
        (
          refl,
          new-Sim zend env (zend.zstr_struct_size (length s.val)) p (string o r.0.1) w ps os k u
              room refl (ap content (sym e)) sim,
        )

  -- the contexts in which the parts of an array or of a reference are taken
  unfoldable pub begun_copy : ℕ → ℕ → Zval → Copy → Copy
  begun_copy n p v k = add_already_allocated p v (persist_alloc zend n k)

  unfoldable pub begun_back : ℕ → Zval → Unpersist → Unpersist
  begun_back o w u = add_already_copied o w (emalloc u)

  pub reference-Done :
      (p : ℕ) (z : Zval) (ps os : List ℕ) (k : Copy) (u : Unpersist)
      → env p ≡ reference p z
      → Sim env ps os k u
      → Done zend env
          (p ∷ ps)
          (k.alloc_cur ∷ os)
          z
          (copy_zval zend z (begun_copy zend.sizeof_reference p (reference k.alloc_cur undef) k))
          (begun_back k.alloc_cur (reference u.next_address undef) u)
      → (let r =
            copy_zval zend z (begun_copy zend.sizeof_reference p (reference k.alloc_cur undef) k) in
          let v = reference k.alloc_cur r.0 in
          Done zend env ps os (reference p z) (v, add_already_allocated p v r.1) u)
  unfolding Done unpersist_zval content begun_back offset_of
  reference-Done p z ps os k u e sim (same, s₁) =
      let o = k.alloc_cur in
      let r = copy_zval zend z (begun_copy zend.sizeof_reference p (reference o undef) k) in
      let v = reference o r.0 in
      let b = unpersist_zval zend r.0 (begun_back o (reference u.next_address undef) u) in
      let w = reference u.next_address b.0 in
      let same_reference : content w ≡ content (reference p z) = ap (reference 0) same in
      subst
        (λ (x : Zval × Unpersist).
          (content x.0 ≡ content (reference p z))
          × Sim env ps os (add_already_allocated p v r.1) x.1)
        (sym (once-missing u o _ (ahead zend env ps os k u sim).1))
        (
          same_reference,
          close-Sim zend env p o v w ps os r.1 b.1 sim.begun (unopened zend env ps os k u sim) refl
              (same_reference ∙ ap content (sym e)) s₁,
        )

  -- the loop that takes the buckets of a copy back
  unfoldable pub loop_back : HashInfo → Buckets → Unpersist → Buckets × Unpersist
  loop_back info bs =
      if info.packed
      then unpersist_values zend bs
      else if info.static_keys
      then unpersist_static zend bs
      else unpersist_buckets zend bs

  unfoldable pub DoneIn : List ℕ → List ℕ → Buckets → Buckets × Unpersist → Copy → Type 0
  DoneIn ps os bs b k = (content_in b.0 ≡ content_in bs) × Sim env ps os k b.1

  not_zero : (n : ℕ) → 0 < n → (n == 0) ≡ false
  not_zero n h = ground arith

  pub ht-Done :
      (p : ℕ) (info : HashInfo) (bs : Buckets) (copy : Copy → Buckets × (HashInfo × Copy))
      (ps os : List ℕ) (k : Copy) (u : Unpersist)
      → env p ≡ array p info bs
      → Sim env ps os k u
      → (let r = copy (
            persist_alloc zend
              (ht_data_size zend info bs)
              (begun_copy zend.sizeof_hash_table p (array k.alloc_cur info end) k)) in
          DoneIn
            (p ∷ ps)
            (k.alloc_cur ∷ os)
            bs
            (loop_back r.1.0 r.0 (begun_back k.alloc_cur (array u.next_address r.1.0 end) u))
            r.1.1)
      → Done zend env ps os (array p info bs) (copy_ht zend p info bs copy k) u
  unfolding Done DoneIn unpersist_zval content begun_back begun_copy offset_of copy_ht unpersist_ht
      loop_back
  ht-Done p info bs copy ps os k u e sim (same, s₁) =
      let o = k.alloc_cur in
      let r = copy (
        persist_alloc zend (ht_data_size zend info bs)
          (begun_copy zend.sizeof_hash_table p (array o info end) k)) in
      let v = array o r.1.0 r.0 in
      let b = loop_back r.1.0 r.0 (begun_back o (array u.next_address r.1.0 end) u) in
      let w = array u.next_address r.1.0 b.0 in
      let same_array : content w ≡ content (array p info bs) = ap (array 0 blank_info) same in
      subst
        (λ (x : Zval × Unpersist).
          (content x.0 ≡ content (array p info bs))
          × Sim env ps os (add_already_allocated p v r.1.1) x.1)
        (sym (
          once-missing u o _ (ahead zend env ps os k u sim).1
          ∙ ap
              (λ (c : Bool).
                if c then (zend.empty_array, u) else unpersist_ht o r.1.0 (loop_back r.1.0 r.0) u)
              (not_zero o sim.begun)))
        (
          same_array,
          close-Sim zend env p o v w ps os r.1.1 b.1 sim.begun (unopened zend env ps os k u sim)
              refl (same_array ∙ ap content (sym e)) s₁,
        )

  pub empty-Done :
      (p : ℕ) (info : HashInfo) (bs : Buckets) (ps os : List ℕ) (k : Copy) (u : Unpersist)
      → (num_of_elements bs == 0) ≡ true
      → content zend.empty_array ≡ array 0 blank_info end
      → Sim env ps os k u
      → Done zend env ps os (array p info bs) (array 0 info end, k) u
  unfolding Done unpersist_zval content
  empty-Done p info bs ps os k u h fresh sim =
      subst
        (λ (x : Zval × Unpersist). (content x.0 ≡ content (array p info bs)) × Sim env ps os k x.1)
        (sym (once-missing u 0 _ (ahead zend env ps os k u sim).0))
        (fresh ∙ ap (array 0 blank_info) (sym (content-empty bs h)), sim)
