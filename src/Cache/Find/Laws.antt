-- ===== src/Cache/Find/Laws.antt =====
-- What a lookup with its statistics does to the cache.
use apcu.Prelude.{
  ℕ, ◌≡◌, refl, ap, ◌∙◌, is_some, Option, none, some, List, [], ◌∷◌, Bool-cases, Option-cases, inl,
  inr,
}
use apcu.Cache.Types.{ZendString, Entry, Header}
use apcu.Cache.Allocator.{Allocator, Cache}
use apcu.Cache.Entry.{key_equals, hard_expired}
use apcu.Cache.Find.{find_walk, find_nostat, count_hit, count_miss, hit_entry, find_loop, find}
use apcu.Cache.Valid.{IsValid}
use apcu.Cache.Valid.Update.{update_entry-IsValid}

module _ ⦃a : Allocator⦄ where
  with_stats-IsValid :
      (c : Cache a) (h : Header)
      → h.nentries ≡ c.header.nentries
      → h.mem_size ≡ c.header.mem_size
      → IsValid c
      → IsValid (record c { header = h })
  with_stats-IsValid c h n w v =
      let count = v.tally.count in
      let bytes = v.tally.bytes in
      record {
        some_slots = v.some_slots;
        sized = v.sized;
        good = v.good;
        tally = record { count = n ∙ count; bytes = w ∙ bytes };
      }

  -- the walk with statistics, by what the one without gives
  unfoldable counted : Cache a → ℕ → Option Entry → Option Entry × Cache a
  counted c t none = (none, count_miss c)
  counted c t (some e) = (some (count_hit t e), hit_entry c e.addr t)

  find_loop-find_walk :
      (c : Cache a) (key : ZendString) (t : ℕ) (es : List Entry)
      → find_loop c key t es ≡ counted c t (find_walk key t es)
  unfolding find_loop find_walk counted
  find_loop-find_walk c key t [] = refl
  find_loop-find_walk c key t (e ∷ es) = elim (Bool-cases (key_equals e key)) [
    | inl here ↦ elim (Bool-cases (hard_expired e t)) [
      | inl over ↦ rw (here, over) refl
      | inr alive ↦ rw (here, alive) refl
    ]
    | inr other ↦ rw other (find_loop-find_walk c key t es)
  ]

  find-counted :
      (c : Cache a) (key : ZendString) (t : ℕ) (o : Option Entry)
      → find_nostat c key t ≡ o
      → find c key t ≡ counted c t o
  unfolding find find_nostat
  find-counted c key t o e = find_loop-find_walk c key t _ ∙ ap (counted c t) e

  pub find-none :
      (c : Cache a) (key : ZendString) (t : ℕ)
      → find_nostat c key t ≡ none
      → find c key t ≡ (none, count_miss c)
  unfolding counted
  find-none c key t e = find-counted c key t none e

  pub find-some :
      (c : Cache a) (key : ZendString) (t : ℕ) (x : Entry)
      → find_nostat c key t ≡ some x
      → find c key t ≡ (some (count_hit t x), hit_entry c x.addr t)
  unfolding counted
  find-some c key t x e = find-counted c key t (some x) e

  pub find-found :
      (c : Cache a) (key : ZendString) (t : ℕ)
      → is_some (find c key t).0 ≡ is_some (find_nostat c key t)
  find-found c key t = elim (Option-cases (find_nostat c key t)) [
    | inl e ↦ rw (find-none c key t e, e) refl
    | inr (x, e) ↦ rw (find-some c key t x e, e) refl
  ]

  pub find-IsValid : (c : Cache a) (key : ZendString) (t : ℕ) → IsValid c → IsValid (find c key t).1
  unfolding count_miss hit_entry count_hit
  find-IsValid c key t v = elim (Option-cases (find_nostat c key t)) [
    | inl e ↦ rw (find-none c key t e) (with_stats-IsValid c _ refl refl v)
    | inr (x, e) ↦ rw (find-some c key t x e) (
        update_entry-IsValid x.addr (count_hit t) (λ y. (refl, refl)) _
          (with_stats-IsValid c _ refl refl v))
  ]
