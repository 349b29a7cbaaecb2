-- ===== src/Php/Stored.antt =====
-- `apcu_store` of one value, with the conversion of values of apc_persist.c.
use apcu.Prelude.{ℕ, ◌≡◌, sym, ap, ◌∙◌, Bool, true, false, Option, none, some, ◌>>=◌}
use apcu.Prelude.Int.{ℤ}
use apcu.Cache.Types.{ZendString, Zval, string, Entry}
use apcu.Cache.Allocator.{Allocator, Cache, Call, Codec}
use apcu.Cache.Valid.{IsValid}
use apcu.Cache.Entry.{ttl_over}
use apcu.Cache.Find.{find_nostat}
use apcu.Cache.Store.{store}
use apcu.Cache.Store.Keeps.{Respects}
use apcu.Cache.Store.Laws.{store-find}
use apcu.Persist.Zend.{Zend, Serializer}
use apcu.Persist.Entry.{persist}
use apcu.Persist.Unpersist.{unpersist, apc_codec}
use apcu.Persist.Whole.{is_whole, restored, unpersist-persist}
use apcu.Php.{Php, Answer, flag, apc_store_helper}

module _ ⦃a : Allocator⦄ (zend : Zend) (serializer : Option Serializer) where
  -- If `apcu_store` or `apcu_add` stores a value of one piece that `apc_persist` keeps, on a valid
  -- cache and while other processes keep caches valid, the key finds an entry, whose value reads as
  -- `restored` says, at every time at which the time to live is not over.
  pub apc_store_helper-restored :
      (php : Php) (call : Call a) (c c' : Cache a) (p : ℕ) (key : ZendString) (val kept : Zval)
      (size : ℕ) (ttl : ℤ) (exclusive : Bool) (t : ℕ)
      → call.codec ≡ apc_codec zend serializer
      → Respects call.meanwhile
      → IsValid c
      → is_whole serializer val ≡ true
      → persist zend serializer key val ≡ some (size, kept)
      → apc_store_helper php call (string p key) (some val) ttl exclusive c ≡ some (flag true, c')
      → ttl_over ttl call.env.now t ≡ false
      → (e : Entry) × (find_nostat c' key t ≡ some e)
        × (unpersist zend serializer e.val ≡ restored zend serializer val)
  unfolding apc_store_helper apc_codec
  apc_store_helper-restored php call c c' p key val kept size ttl exclusive t same ok v whole k h
        live =
      let codec-eq = ap (λ (x : Codec). x.persist key val) same ∙ k in
      let (e, found, value, ttl_kept, count) =
        store-find call c c' key val kept size ttl exclusive t ok v codec-eq
          (answered (store call c key val ttl exclusive) h) live in
      (
        e,
        found,
        ap (unpersist zend serializer) value
            ∙ ap (λ (o : Option (ℕ × Zval)). o >>= λ r. unpersist zend serializer r.1) (sym k)
            ∙ unpersist-persist zend serializer key val whole,
      )
    where
      answered :
          (o : Option (Bool × Cache a))
          → ◌>>=◌ {B = Answer × Cache a} o (λ r. some (flag r.0, r.1)) ≡ some (flag true, c')
          → o ≡ some (true, c')
      answered none e = cc
      answered (some (b, d)) e = cc
