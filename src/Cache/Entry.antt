-- ===== src/Cache/Entry.antt =====
-- One entry: comparison of keys, expiry, references (apc_cache.c).
pub mod Keys
use apcu.Prelude.{
  ℕ, zero, suc, ◌+◌, ◌%◌, Bool, true, false, Option, none, some, List, [], ◌∷◌, map, ◌&&◌, ◌||◌,
  not, ltb, ◌==◌, if◌then◌else◌, length, get_or, set,
}
use apcu.Prelude.Int.{ℤ, pos, negsuc, ◌+ℤ◌, ◌-ℤ◌, ltb_ℤ}
use apcu.Cache.Types.{ZendString, memcmp_eq, Zval, Entry, Header}
use apcu.Cache.Allocator.{Allocator, Cache}

unfoldable pub key_equals : Entry → ZendString → Bool
unfolding memcmp_eq
key_equals entry key =
    entry.key.h == key.h
    && (length entry.key.val == length key.val && memcmp_eq entry.key.val key.val)

is_zero : ℤ → Bool
is_zero (pos n) = n == 0
is_zero (negsuc n) = false

-- an entry of this time to live and time of creation is over at `t`
unfoldable pub ttl_over : (ttl : ℤ) (ctime t : ℕ) → Bool
unfolding is_zero ◌+ℤ◌
ttl_over ttl ctime t = not (is_zero ttl) && ltb_ℤ (pos ctime +ℤ ttl) (pos t)

-- The sum of two signed times is exact: an overflow is undefined in C.
unfoldable pub hard_expired : Entry → ℕ → Bool
unfolding ttl_over
hard_expired entry t = ttl_over entry.ttl entry.ctime t

-- `ref_count > 0`
unfoldable pub in_use : Entry → Bool
in_use entry = ltb_ℤ (pos 0) entry.ref_count

unfoldable pub incref : Entry → Entry
unfolding ◌+ℤ◌
incref entry = record entry { ref_count = entry.ref_count +ℤ pos 1 }

unfoldable pub release : Entry → Entry
unfolding ◌-ℤ◌
release entry = record entry { ref_count = entry.ref_count -ℤ pos 1 }

-- the change of the entry at one address, in one list
unfoldable pub update_at : ℕ → (Entry → Entry) → List Entry → List Entry
update_at addr f [] = []
update_at addr f (e ∷ es) = (if e.addr == addr then f e else e) ∷ update_at addr f es

unfoldable pub update_slots : ℕ → (Entry → Entry) → List (List Entry) → List (List Entry)
unfolding update_at
update_slots addr f [] = []
update_slots addr f (es ∷ ss) = update_at addr f es ∷ update_slots addr f ss

module _ ⦃a : Allocator⦄ where
  -- ZSTR_HASH(key) % nslots
  unfoldable pub hash_slot : Cache a → ZendString → ℕ
  hash_slot cache key = key.h % cache.nslots

  soft_expired : Cache a → Entry → ℕ → Bool
  unfolding is_zero
  soft_expired cache entry t =
      is_zero entry.ttl && (not (cache.ttl == 0) && ltb (entry.atime + cache.ttl) t)

  unfoldable pub expired : Cache a → Entry → ℕ → Bool
  unfolding hard_expired soft_expired
  expired cache entry t = hard_expired entry t || soft_expired cache entry t

  -- `cache->slots[s]` and its update
  abbrev pub slot : Cache a → ℕ → List Entry
  slot cache s = get_or cache.slots s []

  abbrev pub set_slot : Cache a → ℕ → List Entry → Cache a
  set_slot cache s es = record cache { slots = set cache.slots s es }

  -- a write to the entry at an address, wherever it is linked
  unfoldable pub update_entry : Cache a → ℕ → (Entry → Entry) → Cache a
  unfolding update_at update_slots
  update_entry cache addr f =
      let hd = cache.header in
      record cache {
        header = record hd { gc = update_at addr f hd.gc };
        slots = update_slots addr f cache.slots;
      }

  -- `apc_cache_entry_incref`, `apc_cache_entry_release`
  unfoldable pub entry_incref : Cache a → ℕ → Cache a
  unfolding update_entry incref
  entry_incref cache addr = update_entry cache addr incref

  unfoldable pub entry_release : Cache a → ℕ → Cache a
  unfolding update_entry release
  entry_release cache addr = update_entry cache addr release
