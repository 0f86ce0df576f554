-- ===== src/Steam/Names.antt =====
-- internal/infrastructure/clients/steam/prices.go: the key under which names share a price.
use Prim.Native.String.{◌++◌}
use wealthfolio_connect_self.Prelude.{String, not, List, [], ◌∷◌, str_eq, if◌then◌else◌}
use wealthfolio_connect_self.Prelude.Text.{Unicode, is_space, map_text}
use wealthfolio_connect_self.Prelude.Search.{keep}

-- `strings.Fields`
unfoldable pub split_spaces : String → List String
split_spaces String.[] = "" ∷ []
split_spaces (String.◌∷◌ c s) = elim (split_spaces s) [
  | [] ↦ []
  | part ∷ parts ↦ if is_space c then "" ∷ part ∷ parts else String.◌∷◌ c part ∷ parts
]

unfoldable pub fields : String → List String
fields s = keep (λ part. not (str_eq part "")) (split_spaces s)

-- `strings.Join(parts, " ")`
unfoldable pub joined_fields : List String → String
joined_fields [] = ""
joined_fields (part ∷ []) = part
joined_fields (part ∷ (next ∷ parts)) = part ++ " " ++ joined_fields (next ∷ parts)

unfoldable pub normalize_steam_name : String → String
normalize_steam_name name = joined_fields (fields name)

unfoldable pub price_dedupe_key : Unicode → String → String
price_dedupe_key unicode name = "steam:730:" ++ map_text unicode.upper (normalize_steam_name name)
