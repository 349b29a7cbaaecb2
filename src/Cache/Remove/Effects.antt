-- ===== src/Cache/Remove/Effects.antt =====
-- What the removal of an entry and the garbage collection leave alone, and what they do to the
-- counters and to the list of removed entries.
use apcu.Prelude.{
  ℕ, suc, ◌+◌, ◌≡◌, refl, ◌∙◌, ap, List, [], ◌∷◌, arith, if◌then◌else◌, Bool-cases, inl, inr,
}
use apcu.Cache.Types.{Entry, Header, Env}
use apcu.Cache.Allocator.{Allocator, Cache}
use apcu.Cache.Entry.{in_use, expired}
use apcu.Cache.Remove.{free_entry, remove_entry, gc_keeps, gc_loop, wlocked_gc}
use apcu.Cache.Valid.{Tally}

-- The table and the options are the same in both caches.
pub record SameTable ⦃a : Allocator⦄ (c d : Cache a) : Type 0 where
  pub slots : d.slots ≡ c.slots
  pub nslots : d.nslots ≡ c.nslots
  pub ttl : d.ttl ≡ c.ttl
  pub gc_ttl : d.gc_ttl ≡ c.gc_ttl

-- the entries of a list that a garbage collection keeps
unfoldable pub kept : ⦃a : Allocator⦄ → Cache a → ℕ → List Entry → List Entry
kept cache now [] = []
kept cache now (e ∷ es) = if gc_keeps cache now e then e ∷ kept cache now es else kept cache now es

module _ ⦃a : Allocator⦄ where
  pub SameTable-refl : (c : Cache a) → SameTable c c
  SameTable-refl c = record { slots = refl; nslots = refl; ttl = refl; gc_ttl = refl }

  pub SameTable-trans : {c d e : Cache a} → SameTable c d → SameTable d e → SameTable c e
  SameTable-trans p q = record {
    slots = q.slots ∙ p.slots;
    nslots = q.nslots ∙ p.nslots;
    ttl = q.ttl ∙ p.ttl;
    gc_ttl = q.gc_ttl ∙ p.gc_ttl;
  }

  pub remove_entry-SameTable :
      (env : Env) (c : Cache a) (e : Entry) → SameTable c (remove_entry env c e)
  unfolding remove_entry
  remove_entry-SameTable env c e = elim (Bool-cases (in_use e)) [
    | inl h ↦ rw h (record { slots = refl; nslots = refl; ttl = refl; gc_ttl = refl })
    | inr h ↦ rw h (record { slots = refl; nslots = refl; ttl = refl; gc_ttl = refl })
  ]

  -- expiry depends on nothing that a removal changes
  pub expired_congr :
      {c d : Cache a} → SameTable c d → (e : Entry) (t : ℕ) → expired d e t ≡ expired c e t
  unfolding expired
  expired_congr s e t = rw s.ttl

  gc_keeps_congr :
      {c d : Cache a} → SameTable c d → (t : ℕ) (e : Entry) → gc_keeps d t e ≡ gc_keeps c t e
  unfolding gc_keeps
  gc_keeps_congr s t e = rw s.gc_ttl

  kept_congr :
      {c d : Cache a} → SameTable c d → (t : ℕ) (es : List Entry) → kept d t es ≡ kept c t es
  unfolding kept
  kept_congr s t [] = refl
  kept_congr s t (e ∷ es) = rw (gc_keeps_congr s t e, kept_congr s t es)

  -- one entry less, and its bytes
  pub remove_entry-Tally :
      (env : Env) (c : Cache a) (e : Entry) (n w : ℕ)
      → Tally c.header (suc n) (e.mem_size + w)
      → Tally (remove_entry env c e).header n w
  unfolding remove_entry
  remove_entry-Tally env c e n w t = elim (Bool-cases (in_use e)) [
    | inl h ↦ rw h (ground arith)
    | inr h ↦ rw h (ground arith)
  ]

  -- A removed entry that is referenced goes to the front of the list, with its time of removal; any
  -- other is not on the list.
  pub gc-remove_entry :
      (env : Env) (c : Cache a) (e : Entry)
      → (remove_entry env c e).header.gc
        ≡ (if in_use e then record e { dtime = env.wall } ∷ c.header.gc else c.header.gc)
  unfolding remove_entry
  gc-remove_entry env c e = elim (Bool-cases (in_use e)) [ inl h ↦ rw h | inr h ↦ rw h ]

  free_entry-SameTable : (c : Cache a) (e : Entry) → SameTable c (free_entry c e)
  unfolding free_entry
  free_entry-SameTable c e = record { slots = refl; nslots = refl; ttl = refl; gc_ttl = refl }

  gc_loop-SameTable : (now : ℕ) (c : Cache a) (es : List Entry) → SameTable c (gc_loop now c es).0
  unfolding gc_loop
  gc_loop-SameTable now c [] = SameTable-refl c
  gc_loop-SameTable now c (e ∷ es) = elim (Bool-cases (gc_keeps c now e)) [
    | inl h ↦ rw (h, gc_loop) (gc_loop-SameTable now c es)
    | inr h ↦
        rw (h, gc_loop)
          (SameTable-trans (free_entry-SameTable c e) (gc_loop-SameTable now (free_entry c e) es))
  ]

  gc_loop-header :
      (now : ℕ) (c : Cache a) (es : List Entry) → (gc_loop now c es).0.header ≡ c.header
  unfolding gc_loop free_entry
  gc_loop-header now c [] = refl
  gc_loop-header now c (e ∷ es) = elim (Bool-cases (gc_keeps c now e)) [
    | inl h ↦ rw (h, gc_loop) (gc_loop-header now c es)
    | inr h ↦ rw (h, gc_loop) (gc_loop-header now (free_entry c e) es)
  ]

  gc_loop-kept : (now : ℕ) (c : Cache a) (es : List Entry) → (gc_loop now c es).1 ≡ kept c now es
  unfolding gc_loop kept
  gc_loop-kept now c [] = refl
  gc_loop-kept now c (e ∷ es) = elim (Bool-cases (gc_keeps c now e)) [
    | inl h ↦ rw (h, gc_loop) (ap (λ l. e ∷ l) (gc_loop-kept now c es))
    | inr h ↦
        rw (h, gc_loop)
          (gc_loop-kept now (free_entry c e) es ∙ kept_congr (free_entry-SameTable c e) now es)
  ]

  pub wlocked_gc-SameTable : (env : Env) (c : Cache a) → SameTable c (wlocked_gc env c)
  unfolding wlocked_gc
  wlocked_gc-SameTable env c =
      let s = gc_loop-SameTable env.wall c c.header.gc in
      record { slots = s.slots; nslots = s.nslots; ttl = s.ttl; gc_ttl = s.gc_ttl }

  -- the list of removed entries holds what is to be kept, in order
  pub gc-wlocked_gc :
      (env : Env) (c : Cache a) → (wlocked_gc env c).header.gc ≡ kept c env.wall c.header.gc
  unfolding wlocked_gc
  gc-wlocked_gc env c = gc_loop-kept env.wall c c.header.gc

  pub wlocked_gc-Tally :
      (env : Env) (c : Cache a) (n w : ℕ) → Tally c.header n w → Tally (wlocked_gc env c).header n w
  unfolding wlocked_gc
  wlocked_gc-Tally env c n w t =
      let e = gc_loop-header env.wall c c.header.gc in
      record {
        count = ap (λ (hd : Header). hd.nentries) e ∙ t.count;
        bytes = ap (λ (hd : Header). hd.mem_size) e ∙ t.bytes;
      }
