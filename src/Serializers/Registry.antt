-- ===== src/Serializers/Registry.antt =====
-- What the registration of a serializer does to the search for one.
use apcu.Prelude.{
  ℕ, ◌≡◌, refl, Bool, true, false, none, some, List, [], ◌∷◌, ◌&&◌, if◌then◌else◌, Bool-cases, inl,
  inr,
}
use apcu.Cache.Types.{memcmp_eq}
use apcu.Persist.Zend.{Serializer}
use apcu.Serializers.{Place, clear_next, register_serializer, find_serializer}

-- the places from the first empty one on are empty
Vacant : List Place → Type 0
Vacant [] = Unit {0}
Vacant (none ∷ ps) = Vacant ps
Vacant (some r ∷ ps) = ⊥

unfoldable pub IsPacked : List Place → Type 0
unfolding Vacant
IsPacked [] = Unit {0}
IsPacked (none ∷ ps) = Vacant ps
IsPacked (some r ∷ ps) = IsPacked ps

-- whether a place is left
pub has_room : List Place → Bool
has_room [] = false
has_room (none ∷ ps) = true
has_room (some r ∷ ps) = has_room ps

find-Vacant : (ps : List Place) (name : List ℕ) → Vacant ps → find_serializer ps name ≡ none
unfolding Vacant find_serializer
find-Vacant [] name v = refl
find-Vacant (none ∷ ps) name v = find-Vacant ps name v
find-Vacant (some r ∷ ps) name v = elim v [ ]

clear_next-Vacant : (ps : List Place) → Vacant ps → Vacant (clear_next ps)
unfolding Vacant clear_next
clear_next-Vacant [] v = tt
clear_next-Vacant (none ∷ ps) v = v
clear_next-Vacant (some r ∷ ps) v = elim v [ ]

Vacant-IsPacked : (ps : List Place) → Vacant ps → IsPacked ps
unfolding Vacant IsPacked
Vacant-IsPacked [] v = tt
Vacant-IsPacked (none ∷ ps) v = v
Vacant-IsPacked (some r ∷ ps) v = elim v [ ]

-- If the places from the first empty one on are empty, a registration succeeds exactly if a place
-- is left, and keeps them so; afterwards a name finds the serializer that it found before, or else
-- the new one, if that was registered under it.
pub register_serializer-find :
    (name : List ℕ) (s : Serializer) (ps : List Place)
    → IsPacked ps
    → ((register_serializer name s ps).0 ≡ has_room ps)
      × IsPacked (register_serializer name s ps).1
      × ((k : List ℕ)
          → find_serializer (register_serializer name s ps).1 k ≡ elim (find_serializer ps k) [
            | some t ↦ some t
            | none ↦ if has_room ps && memcmp_eq name k then some s else none
          ])
unfolding register_serializer find_serializer has_room IsPacked
register_serializer-find name s [] h = (refl, tt, λ k. refl)
register_serializer-find name s (none ∷ ps) h =
    let v = clear_next-Vacant ps h in
    (
      refl,
      Vacant-IsPacked (clear_next ps) v,
      λ k. rw (find-Vacant ps k h, find-Vacant (clear_next ps) k v) refl,
    )
register_serializer-find name s (some (n, t) ∷ ps) h =
    let (room, packed, found) = register_serializer-find name s ps h in
    (
      room,
      packed,
      λ k. elim (Bool-cases (memcmp_eq n k)) [ inl e ↦ rw e refl | inr e ↦ rw e (found k) ],
    )
