-- ===== src/Lib.antt =====
-- APCu: a cache of PHP values in shared memory.
--
-- The program has an allocator of shared memory (apc_sma.c), a cache of entries on top of it
-- (apc_cache.c), the conversion of values into the shared form (apc_persist.c), a growable stack
-- (apc_stack.c) and the functions that PHP sees (php_apc.c, apc_iterator.c). A store makes an
-- entry in the allocator's memory and inserts it into the slot of its key; when the allocator is
-- out of memory it calls the cache's expunge, which removes expired entries, defragments the
-- memory or drops everything, and the allocator tries again.
--
-- Files and the code that they model:
--   Prelude       the names that all files share, numbers, lists and signed integers
--   Stack         apc_stack.c
--   Sma/Platform  ALIGNWORD, the sizes of the structs and size_t arithmetic (apc_sma.c)
--   Sma/Block     block_t, sma_header_t, link_free_block_at_start, unlink_free_block
--   Sma/Alloc     find_block, sma_allocate, sma_deallocate
--   Sma/Malloc    apc_sma_malloc, over any state of its caller
--   Sma/Defrag    apc_sma_defrag
--   Sma/Api       the functions of apc_sma.h; Sma/Api/Instance makes them the cache's allocator
--   Cache/Types   entries, keys, values and the header (apc_cache.h)
--   Cache/Allocator   apc_cache_t, its locks, and what the cache uses of the allocator
--   Cache/Entry   key comparison, expiry, reference counts, the slot of a key
--   Cache/Remove  free_entry, apc_cache_wlocked_remove_entry, apc_cache_wlocked_gc
--   Cache/Insert  apc_cache_wlocked_insert
--   Cache/Find    apc_cache_rlocked_find and its variants
--   Cache/Expunge apc_cache_wlocked_real_expunge, apc_cache_clear, apc_cache_default_expunge
--   Cache/Store   apc_cache_defense, apc_cache_store
--   Cache/Fetch   apc_cache_fetch, exists, entry, stat, info
--   Cache/Update  apc_cache_update, apc_cache_atomic_update_long and the updaters of php_apc.c
--   Cache/Delete  apc_cache_delete
--   Cache/Create  apc_cache_create
--   Cache/Valid   the invariant of the cache
--   Persist/Zend  what apc_persist.c uses of PHP, apc_shr3
--   Persist/Calc  apc_persist_calc and its helpers: the pass that counts the size
--   Persist/Copy  apc_persist_copy_zval and its helpers: the pass that copies
--   Persist/Entry apc_persist, apc_persist_create_entry
--   Persist/Unpersist apc_unpersist and its helpers, and the cache's interface to both ways
--   Iterator/Types    apc_iterator_t, its search and its items (apc_iterator.h, apc_iterator.c),
--                 apc_flip_hash (apc.c)
--   Iterator/Fetch    apc_iterator_fetch_active, apc_iterator_fetch_deleted, apc_iterator_totals
--   Iterator/Methods  the methods of APCUIterator, apc_iterator_delete
--   Serializers   the registry of serializers (apc.c)
--   Php           the functions of a script (php_apc.c)
--   Signal        the signal handlers (apc_signal.c)
--   Lock          the locks and mutexes (apc_lock.c, apc_mutex.c); Lock/Spin the spin lock
--   Mmap          apc_mmap, apc_unmap, and the setting of the size of pages (apc_mmap.c, php_apc.c)
--   Tests         runs at concrete inputs, and the theorems at concrete inputs
-- A module below one of these, such as Cache/Store/Laws, holds the theorems on it, and the lemmas
-- that they need: Persist/Content says what the content of a value is, Sma/Alloc/Handed what a
-- well-formed free list is.
--
-- Modelling choices:
--   * A segment is a block header at each offset; sizes and counts of free bytes are size_t of 64
--     bits with their wrap-around written out. Counters of the header do not wrap. A time to live,
--     a reference count and a long value are signed; the other times are natural numbers.
--   * The list of a slot, linked by next and prev as offsets, is a list of entries; each entry
--     has its own address. The list of removed entries is one too.
--   * A walk along blocks takes as fuel the size of the segment: blocks stand at distinct offsets
--     below it. A result `none` is a walk that ran out, or a failed assertion.
--   * The restarts of an allocation take `tries`: two are enough if no other process cleans the
--     cache up while it waits for the lock. `meanwhile` is what other processes do to the cache
--     at the points where a call has let go of its lock, and before it gets it.
--     The release of a new entry's reference, behind the lock of a store, is one step with its
--     insertion.
--   * The sum of a time and a time to live, and that of a block's size and the least size, are taken
--     not to overflow.
--   * An offset and the address that it stands for are one number. Where the code takes an offset
--     for the address of a key, the key that it reads is a parameter (`stray`).
--   * Whether a lock is granted, the clock and the process id are inputs of each call (`Env`).
--   * expunge_threshold is a parameter, since the source computes it in floating point. The hint
--     for the number of slots is below 2^31, the range of the source's int.
--   * To the cache the conversion of values is an interface (`Codec`): the size and kept form of a
--     value, and the value that is made of it. `apc_codec` in Persist/Unpersist implements it.
--   * A value is a tree that carries the address of each part that PHP counts references to; an
--     array that contains itself is left out. In an entry the addresses are offsets. The build is
--     for PHP 8.2 or later. The sizes of PHP's structs, its hash function, its serializer and its
--     regular expressions are parameters (`Zend`, `Engine`, `Php`).
--   * A result `none` in the iterator is a pinned entry that is gone, or a failed assertion. The
--     format of an iterator is not negative. Bailouts of the engine are not modelled.
--   * A block that the defragmentation moves keeps its contents; the callback tells its owner the
--     new address. An allocated block that no list holds is an entry that is being built.
--   * The actions of signals are the system's state (`Kernel`), with the two uses of sigaction as
--     its operations; the signals that dump core are a list. The array of saved handlers is a
--     list, and `freed` says whether its memory was released. Flags other than SA_SIGINFO and
--     SA_ONESHOT are one number.
--   * What a lock of the system answers is a parameter (`Pthread`), as is PHP's blocking of
--     interruptions (`Interruptions`). A file lock takes `tries` for the calls that a signal
--     interrupts. Processes at a spin lock take their steps in any order; a step of the loop of
--     apc_lock_get is one exchange, which the processor makes atomic.
--   * The calls of the system that map memory are a parameter (`System`). The flags of a mapping are
--     a record, without MAP_SHARED, which each has. The loop for the logarithm of the size of a page
--     has 64 rounds, since a zend_long has fewer binary digits. An error of apc_mmap stops the
--     process, and is its result (`fatal`). The system has MAP_HUGETLB.
--
-- Not modelled: canaries, valgrind hooks and logging, a cache pointer of NULL, apc_cache_preload
-- (it reads files), the locks of Windows, the calls that create and destroy the locks of the
-- system, apc_shm.c, module set-up, argument parsing, the functions of a script that print information,
-- and PHP's own serializer.
pub mod Prelude
pub mod Stack
pub mod Sma
pub mod Cache
pub mod Persist
pub mod Iterator
pub mod Php
pub mod Serializers
pub mod Signal
pub mod Lock
pub mod Mmap
pub mod Tests
