-- ===== src/Cache/Fetch/Returned.antt =====
-- The references that a fetch takes on an entry and gives back.
use apcu.Prelude.{Option, none, some, ◌∷◌}
use apcu.Cache.Types.{Zval, Entry}
use apcu.Cache.Allocator.{Allocator, Cache, Call}
use apcu.Cache.Entry.{entry_release}
use apcu.Cache.Expunge.{entry_in}

module _ ⦃a : Allocator⦄ where
  -- the rest of a fetch behind its lookup
  abbrev read_value : Call a → Option Entry × Cache a → Option (Option Zval × Cache a)
  read_value call r =
      let later = call.meanwhile r.1 in
      elim r.0 [
        | none ↦ some (none, r.1)
        | some e ↦ elim (entry_in e.addr (later.header.gc ∷ later.slots)) [
          | none ↦ none
          | some e' ↦ some (call.codec.unpersist e'.val, entry_release later e.addr)
        ]
      ]

  abbrev no_value : Option Zval
  no_value = none
