-- ===== src/Cache/Valid/Update.antt =====
-- A change of entries that spares their keys and sizes keeps the invariant.
use apcu.Prelude.{
  ℕ, suc, ◌%◌, ◌≡◌, refl, ◌∙◌, ap, List, [], ◌∷◌, arith, length, ◌==◌, if◌then◌else◌, Bool-cases,
  inl, inr,
}
use apcu.Cache.Types.{ZendString, Entry}
use apcu.Cache.Allocator.{Allocator, Cache}
use apcu.Cache.Entry.{key_equals, update_at, update_slots, update_entry}
use apcu.Cache.Valid.{
  weight, total_count, total_weight, Lacks, Distinct, Placed, GoodSlots, IsValid,
}

-- the key and the size of every entry stay
abbrev pub KeepsKey : (Entry → Entry) → Type 0
KeepsKey f = (e : Entry) → ((f e).key ≡ e.key) × ((f e).mem_size ≡ e.mem_size)

module _ (addr : ℕ) (f : Entry → Entry) (keeps : KeepsKey f) where
  changed : Entry → Entry
  changed e = if e.addr == addr then f e else e

  changed-KeepsKey : KeepsKey changed
  unfolding changed
  changed-KeepsKey e = elim (Bool-cases (e.addr == addr)) [
    | inl h ↦ rw h (keeps e)
    | inr h ↦ rw h (refl, refl)
  ]

  key_equals-changed : (e : Entry) (k : ZendString) → key_equals (changed e) k ≡ key_equals e k
  unfolding key_equals
  key_equals-changed e k = rw (changed-KeepsKey e).0

  length-update_at : (es : List Entry) → length (update_at addr f es) ≡ length es
  unfolding update_at
  length-update_at [] = refl
  length-update_at (e ∷ es) = ap suc (length-update_at es)

  weight-update_at : (es : List Entry) → weight (update_at addr f es) ≡ weight es
  unfolding update_at weight changed
  weight-update_at [] = refl
  weight-update_at (e ∷ es) =
      let same : (changed e).mem_size ≡ e.mem_size = (changed-KeepsKey e).1 in
      omega (arith, weight-update_at es)

  Lacks-update_at : (es : List Entry) (k : ZendString) → Lacks k es → Lacks k (update_at addr f es)
  unfolding update_at changed
  Lacks-update_at [] k l = tt
  Lacks-update_at (e ∷ es) k l = (key_equals-changed e k ∙ l.0, Lacks-update_at es k l.1)

  Distinct-update_at : (es : List Entry) → Distinct es → Distinct (update_at addr f es)
  unfolding update_at changed
  Distinct-update_at [] d = tt
  Distinct-update_at (e ∷ es) d =
      let same : (changed e).key ≡ e.key = (changed-KeepsKey e).0 in
      let lacks : Lacks (changed e).key (update_at addr f es) =
        rw same (Lacks-update_at es e.key d.0) in
      (lacks, Distinct-update_at es d.1)

  Placed-update_at : (n i : ℕ) (es : List Entry) → Placed n i es → Placed n i (update_at addr f es)
  unfolding update_at changed
  Placed-update_at n i [] p = tt
  Placed-update_at n i (e ∷ es) p =
      let same : (changed e).key ≡ e.key = (changed-KeepsKey e).0 in
      let home : (changed e).key.h % n ≡ i = rw same (p.0) in (home, Placed-update_at n i es p.1)

  pub GoodSlots-update_slots :
      (n i : ℕ) (ss : List (List Entry)) → GoodSlots n i ss → GoodSlots n i (update_slots addr f ss)
  unfolding update_slots
  GoodSlots-update_slots n i [] g = tt
  GoodSlots-update_slots n i (es ∷ ss) g = (
    (Placed-update_at n i es g.0.0, Distinct-update_at es g.0.1),
    GoodSlots-update_slots n (suc i) ss g.1,
  )

  pub total-update_slots :
      (ss : List (List Entry))
      → (total_count (update_slots addr f ss) ≡ total_count ss)
        × (total_weight (update_slots addr f ss) ≡ total_weight ss)
        × (length (update_slots addr f ss) ≡ length ss)
  unfolding update_slots total_count total_weight
  total-update_slots [] = (refl, refl, refl)
  total-update_slots (es ∷ ss) =
      let ih = total-update_slots ss in
      (omega (arith, length-update_at es), omega (arith, weight-update_at es), omega arith)

  pub update_entry-IsValid :
      ⦃a : Allocator⦄ → (c : Cache a) → IsValid c → IsValid (update_entry c addr f)
  unfolding update_entry
  update_entry-IsValid c v =
      let totals = total-update_slots c.slots in
      let t = v.tally in
      record {
        some_slots = v.some_slots;
        sized = totals.2 ∙ v.sized;
        good = GoodSlots-update_slots c.nslots 0 c.slots v.good;
        tally = record { count = omega arith; bytes = omega arith };
      }
