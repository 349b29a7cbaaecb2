-- ===== src/Cache/Expunge/Default.antt =====
-- The default expunge keeps the invariant.
use apcu.Prelude.{
  ℕ, ◌/◌, ◌≡◌, refl, ◌∙◌, ltb, leb, ◌∷◌, arith, length, Bool-cases, Option-cases, inl, inr,
}
use apcu.Cache.Types.{Env}
use apcu.Cache.Allocator.{Allocator, Cache, wlock}
use apcu.Cache.Entry.{in_use}
use apcu.Cache.Remove.{wlocked_gc}
use apcu.Cache.Expunge.{
  Lists, entry_in, move_to, move_entry, real_expunge, drop_expired, defragment, wipe_lastkey,
  make_room, default_expunge,
}
use apcu.Cache.Valid.{total_count, total_weight, GoodSlots, IsValid}
use apcu.Cache.Valid.Update.{KeepsKey, GoodSlots-update_slots, total-update_slots}
use apcu.Cache.Expunge.Drop.{wlocked_gc-IsValid, drop_expired-IsValid}
use apcu.Cache.Expunge.Laws.{real_expunge-IsValid}

module _ ⦃a : Allocator⦄ where
  -- what a defragmentation has to keep of the lists
  abbrev GoodLists : Cache a → Lists → Type 0
  GoodLists c ls =
      GoodSlots c.nslots 0 ls.slots
      × (length ls.slots ≡ length c.slots)
      × (total_count ls.slots ≡ total_count c.slots)
      × (total_weight ls.slots ≡ total_weight c.slots)

  move_to-KeepsKey : (new : ℕ) → KeepsKey (move_to new)
  unfolding move_to
  move_to-KeepsKey new e = (refl, refl)

  move_entry-GoodLists :
      (c : Cache a) (ls : Lists) (old new : ℕ)
      → GoodLists c ls
      → GoodLists c (move_entry ls old new).1
  unfolding move_entry
  move_entry-GoodLists c ls old new g = elim (Option-cases (entry_in old (ls.gc ∷ ls.slots))) [
    | inl none_there ↦ rw (none_there, move_entry) g
    | inr (e, found) ↦ elim (Bool-cases (in_use e)) [
      | inl pinned ↦ rw (found, move_entry, pinned) g
      | inr free ↦
          let totals = total-update_slots old (move_to new) (move_to-KeepsKey new) ls.slots in
          rw (found, move_entry, free)
            (
              GoodSlots-update_slots old (move_to new) (move_to-KeepsKey new) c.nslots 0 ls.slots
                  g.0,
              totals.2 ∙ g.1,
              totals.0 ∙ g.2,
              totals.1 ∙ g.3,
            )
    ]
  ]

  defragment-IsValid : (c : Cache a) → IsValid c → IsValid (defragment c)
  unfolding defragment
  defragment-IsValid c v =
      let hd = c.header in
      let ls : Lists = record { slots = c.slots; gc = hd.gc } in
      let g =
        a.defrag_inv Lists (GoodLists c) move_entry (move_entry-GoodLists c) c.sma ls
          (v.good, refl, refl, refl) in
      let t = v.tally in
      record {
        some_slots = v.some_slots;
        sized = g.1 ∙ v.sized;
        good = g.0;
        tally = record { count = omega arith; bytes = omega arith };
      }

  make_room-IsValid :
      (env : Env) (c : Cache a) (size : ℕ) → IsValid c → IsValid (make_room env c size)
  unfolding make_room wipe_lastkey
  make_room-IsValid env c requested v =
      let size = c.expunge_threshold requested (a.total_size c.sma / 100) in
      let swept = wlocked_gc env (drop_expired env c) in
      let w = wlocked_gc-IsValid env (drop_expired env c) (drop_expired-IsValid env c v) in
      let d = defragment-IsValid swept w in
      let t = d.tally in
      elim (Bool-cases (leb (a.total_size c.sma) size)) [
        | inl h ↦ rw h (wlocked_gc-IsValid env (real_expunge env c) (real_expunge-IsValid env c v))
        | inr h ↦ elim (Bool-cases (a.check_avail swept.sma size)) [
          | inr g ↦ rw (h, g) (real_expunge-IsValid env swept w)
          | inl g ↦ elim (Bool-cases (a.check_avail_contiguous (defragment swept).sma size)) [
            | inr f ↦ rw (h, g, f) (real_expunge-IsValid env (defragment swept) d)
            | inl f ↦
                rw (h, g, f)
                  (record {
                    some_slots = d.some_slots;
                    sized = d.sized;
                    good = d.good;
                    tally = record { count = t.count; bytes = t.bytes };
                  })
          ]
        ]
      ]

  -- The default expunge keeps the invariant on every branch, if the other processes do.
  pub default_expunge-IsValid :
      (meanwhile : Cache a → Cache a) (env : Env) (c : Cache a) (size : ℕ)
      → IsValid (meanwhile c)
      → IsValid (default_expunge meanwhile env c size).1
  unfolding default_expunge
  default_expunge-IsValid meanwhile env c size v =
      let r = make_room-IsValid env (meanwhile c) size v in
      let t = r.tally in
      elim (Bool-cases (wlock env)) [
        | inr g ↦ rw g v
        | inl g ↦ elim (Bool-cases (ltb c.header.ncleanups (meanwhile c).header.ncleanups)) [
          | inl f ↦ rw (g, f) v
          | inr f ↦
              rw (g, f)
                (record {
                  some_slots = r.some_slots;
                  sized = r.sized;
                  good = r.good;
                  tally = record { count = t.count; bytes = t.bytes };
                })
        ]
      ]
