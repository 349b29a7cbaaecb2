-- ===== src/Cache/Valid/Lookup.antt =====
-- Lookups behind a change of the entry at one address.
use apcu.Prelude.{
  ℕ, ◌%◌, ◌≡◌, refl, ap, ◌∙◌, none, some, List, [], ◌∷◌, ◌==◌, zero, suc, if◌then◌else◌, Bool-cases,
  inl, inr, get_or,
}
use apcu.Cache.Types.{ZendString, Entry}
use apcu.Cache.Allocator.{Allocator, Cache}
use apcu.Cache.Entry.{
  key_equals, hard_expired, hash_slot, slot, update_at, update_slots, update_entry,
}
use apcu.Cache.Find.{find_walk, find_nostat}

-- the key and what its expiry depends on stay
abbrev KeepsLife : (Entry → Entry) → Type 0
KeepsLife f = (e : Entry) → ((f e).key ≡ e.key) × ((f e).ttl ≡ e.ttl) × ((f e).ctime ≡ e.ctime)

module _ (addr : ℕ) (f : Entry → Entry) (keeps : KeepsLife f) where
  abbrev pub changed : Entry → Entry
  changed e = if e.addr == addr then f e else e

  changed-KeepsLife : KeepsLife changed
  changed-KeepsLife e = elim (Bool-cases (e.addr == addr)) [
    | inl h ↦ rw h (keeps e)
    | inr h ↦ rw h (refl, refl, refl)
  ]

  key_same : (e : Entry) (k : ZendString) → key_equals (changed e) k ≡ key_equals e k
  unfolding key_equals
  key_same e k = rw (changed-KeepsLife e).0

  life_same : (e : Entry) (t : ℕ) → hard_expired (changed e) t ≡ hard_expired e t
  unfolding hard_expired
  life_same e t = let c = changed-KeepsLife e in rw (c.1, c.2)

  find_walk-update_at :
      (k : ZendString) (t : ℕ) (es : List Entry)
      → find_walk k t (update_at addr f es)
        ≡ elim (find_walk k t es) [ none ↦ none | some e ↦ some (changed e) ]
  unfolding find_walk update_at
  find_walk-update_at k t [] = refl
  find_walk-update_at k t (e ∷ es) = elim (Bool-cases (key_equals e k)) [
    | inl h ↦ elim (Bool-cases (hard_expired e t)) [
      | inl g ↦ rw (key_same e k, h, life_same e t, g)
      | inr g ↦ rw (key_same e k, h, life_same e t, g)
    ]
    | inr h ↦ rw (key_same e k, h) (find_walk-update_at k t es)
  ]

  get_or-update_slots :
      (ss : List (List Entry)) (i : ℕ)
      → get_or (update_slots addr f ss) i [] ≡ update_at addr f (get_or ss i [])
  unfolding update_slots update_at
  get_or-update_slots [] i = refl
  get_or-update_slots (es ∷ ss) zero = refl
  get_or-update_slots (es ∷ ss) (suc i) = get_or-update_slots ss i

  -- a lookup gives the changed entry, if the entry that it gave was changed
  pub find_nostat-update_entry :
      ⦃a : Allocator⦄
      → (c : Cache a) (k : ZendString) (t : ℕ)
      → find_nostat (update_entry c addr f) k t
        ≡ elim (find_nostat c k t) [ none ↦ none | some e ↦ some (changed e) ]
  unfolding find_nostat update_entry hash_slot
  find_nostat-update_entry c k t =
      ap (find_walk k t) (get_or-update_slots c.slots (k.h % c.nslots))
      ∙ find_walk-update_at k t (slot c (k.h % c.nslots))
