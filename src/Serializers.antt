-- ===== src/Serializers.antt =====
-- The registry of serializers (apc.c): an array of places, each with a name or empty.
pub mod Registry
use apcu.Prelude.{ℕ, zero, suc, Bool, true, false, Option, none, some, List, [], ◌∷◌, if◌then◌else◌}
use apcu.Cache.Types.{memcmp_eq}
use apcu.Persist.Zend.{Serializer}

abbrev pub Place : Type 0
Place = Option (List ℕ × Serializer)

-- `APC_MAX_SERIALIZERS`
abbrev max_serializers : ℕ
max_serializers = 16

empty_places : ℕ → List Place
empty_places zero = []
empty_places (suc n) = none ∷ empty_places n

-- the array at the start of the program
unfoldable apc_serializers : List Place
unfolding empty_places
apc_serializers = empty_places max_serializers

-- the name of the next place is cleared, if there is one
pub clear_next : List Place → List Place
clear_next [] = []
clear_next (p ∷ ps) = none ∷ ps

-- the answer, and the array
pub register_serializer : (name : List ℕ) → Serializer → List Place → Bool × List Place
unfolding clear_next
register_serializer name s [] = (false, [])
register_serializer name s (none ∷ ps) = (true, some (name, s) ∷ clear_next ps)
register_serializer name s (some r ∷ ps) =
    let rest = register_serializer name s ps in (rest.0, some r ∷ rest.1)

-- Names are without zero bytes, so that `strcmp` compares all bytes.
pub find_serializer : List Place → (name : List ℕ) → Option Serializer
unfolding memcmp_eq
find_serializer [] name = none
find_serializer (none ∷ ps) name = find_serializer ps name
find_serializer (some (n, s) ∷ ps) name =
    if memcmp_eq n name then some s else find_serializer ps name
