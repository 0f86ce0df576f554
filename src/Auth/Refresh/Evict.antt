-- ===== src/Auth/Refresh/Evict.antt =====
-- What eviction leaves in the map of refresh tokens.
use wealthfolio_connect_self.Prelude.{
  ℕ, ◌≤◌, String, ◌≡◌, refl, Option, none, some, [], ◌∷◌, arith, eq_iff, length, if◌then◌else◌,
}
use wealthfolio_connect_self.Prelude.Map.{Map, lookup, IsMap}
use wealthfolio_connect_self.Auth.Refresh.{RefreshEntry, is_expired, evict_expired}

-- An entry as it is seen at a time: gone once it has expired.
abbrev pub live : ℕ → Option RefreshEntry → Option RefreshEntry
live now none = none
live now (some e) = if is_expired now e then none else some e

pub lookup-evict_expired :
    (now : ℕ) (k : String) (m : Map RefreshEntry)
    → IsMap m
    → lookup k (evict_expired now m) ≡ live now (lookup k m)
unfolding lookup evict_expired
lookup-evict_expired now k [] h = refl
lookup-evict_expired now k ((j, v) ∷ m) h =
    ground (arith, lookup-evict_expired now k m h.1, eq_iff j k)

pub evict_expired-IsMap : (now : ℕ) (m : Map RefreshEntry) → IsMap m → IsMap (evict_expired now m)
unfolding evict_expired
evict_expired-IsMap now [] h = tt
evict_expired-IsMap now ((j, v) ∷ m) h =
    ground (arith, evict_expired-IsMap now m h.1, lookup-evict_expired now j m h.1)

pub length-evict_expired :
    (now : ℕ) (m : Map RefreshEntry) → length (evict_expired now m) ≤ length m
unfolding evict_expired
length-evict_expired now [] = omega arith
length-evict_expired now ((j, v) ∷ m) = ground (arith, length-evict_expired now m)
