-- ===== src/Sma/Malloc.antt =====
-- `apc_sma_malloc` (apc_sma.c) over the state of its caller, which the expunge callback changes.
-- The restarts take fuel: the callback can ask for another try without end, by returning 0.
-- What `init_callback` writes is a field of the object that the caller makes of the memory.
pub mod Laws
use apcu.Prelude.{ℕ, zero, suc, Bool, true, false, Option, none, some, ltb, if◌then◌else◌}

-- one try under the segment's lock: the lock was refused, no block was found, or an address
pub data Attempt {ℓ} (S : Type ℓ) : Type ℓ where
  no_lock : Attempt S
  full : S → Attempt S
  got : ℕ → S → Attempt S

module _ {ℓ} {S : Type ℓ} (max_alloc_size : S → ℕ) (try_malloc : S → ℕ → Attempt S)
    (expunge : S → ℕ → Bool × S) where
  unfoldable pub malloc : ℕ → (nuked : Bool) → S → ℕ → Option (Option ℕ × S)
  malloc zero nuked s n = none
  malloc (suc tries) nuked s n =
      if ltb (max_alloc_size s) n then some (none, s) else elim (try_malloc s n) [
        | no_lock ↦ some (none, s)
        | got ptr s' ↦ some (some ptr, s')
        | full s' ↦
            let r = expunge s' n in
            let again = malloc tries r.0 r.1 n in if nuked then some (none, s') else again
      ]
