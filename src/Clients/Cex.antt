-- ===== src/Clients/Cex.antt =====
-- internal/infrastructure/clients/cexcommon/cexcommon.go: pairs, assets and fees. The rest of the file
-- is in Trades and Translate.
pub mod Trades
pub mod Translate
pub mod Legs
use Prim.Native.Char.{Char}
use mathlib.Core.List.{◌++◌}
use wealthfolio_connect_self.Prelude.{
  ℕ, String, Bool, true, false, not, ◌&&◌, ◌||◌, Option, none, some, List, [], ◌∷◌, str_eq,
  if◌then◌else◌,
}
use wealthfolio_connect_self.Prelude.Text.{Unicode, trim_space, map_text}
use wealthfolio_connect_self.Prelude.Time.{is_zero}

-- `float64`, as far as the translation uses it.
pub record Floats (F : Type 0) : Type 0 where
  pub zero : F
  pub one : F
  pub add : F → F → F
  pub mul : F → F → F
  pub div : F → F → F
  pub equal : F → F → Bool
  pub less : F → F → Bool

pub record CexBalance (F : Type 0) : Type 0 where
  pub asset : String
  pub quantity : F
  pub price_usd : F
  pub usd_value : F

pub record Trade (F : Type 0) : Type 0 where
  pub id : String
  pub symbol : String
  pub base_asset : String
  pub quote_asset : String
  pub side : String
  pub price : F
  pub quantity : F
  pub fee : F
  pub fee_asset : String
  pub note : String
  pub timestamp : ℕ

pub record Snapshot (F : Type 0) : Type 0 where
  pub balances : List (CexBalance F)
  pub trades : List (Trade F)
  pub activities_fetched : Bool
  pub partial : Bool
  pub fee_price : Option (String → ℕ → F)

abbrev pub quote_usd : String
quote_usd = "USD"

abbrev pub is_one_of : String → List String → Bool
is_one_of s [] = false
is_one_of s (t ∷ ts) = str_eq s t || is_one_of s ts

-- `strings.Split(s, "-")`
unfoldable pub split_dash : String → List String
split_dash String.[] = "" ∷ []
split_dash (String.◌∷◌ c s) = elim (split_dash s) [
  | [] ↦ []
  | part ∷ parts ↦
      if str_eq (String.◌∷◌ c "") "-" then "" ∷ part ∷ parts else String.◌∷◌ c part ∷ parts
]

-- `strings.ReplaceAll(s, "-", "")`
unfoldable pub remove_dashes : String → String
remove_dashes String.[] = ""
remove_dashes (String.◌∷◌ c s) =
    let rest = remove_dashes s in if str_eq (String.◌∷◌ c "") "-" then rest else String.◌∷◌ c rest

-- The text in front of the first dash, if there is one.
unfoldable pub before_dash : String → Option String
before_dash String.[] = none
before_dash (String.◌∷◌ c s) =
    let rest = before_dash s in
    if str_eq (String.◌∷◌ c "") "-"
    then some ""
    else elim rest [ none ↦ none | some front ↦ some (String.◌∷◌ c front) ]

-- `strings.TrimSuffix`, if the text has the suffix.
unfoldable pub strip_suffix : String → String → Option String
strip_suffix suffix String.[] = if str_eq "" suffix then some "" else none
strip_suffix suffix (String.◌∷◌ c s) =
    let rest = strip_suffix suffix s in
    if str_eq (String.◌∷◌ c s) suffix
    then some ""
    else elim rest [ none ↦ none | some front ↦ some (String.◌∷◌ c front) ]

-- The first suffix of a list behind a text that is longer: what is in front of it, and the suffix.
unfoldable pub strip_first : List String → String → Option (String × String)
strip_first [] s = none
strip_first (suffix ∷ suffixes) s =
    let rest = strip_first suffixes s in
    elim (strip_suffix suffix s) [
      | none ↦ rest
      | some front ↦ if str_eq front "" then rest else some (front, suffix)
    ]

abbrev pub pair_quotes : List String
pair_quotes =
    "USD₮0" ∷ "USDT" ∷ "USDC" ∷ "BUSD" ∷ "USDS" ∷ "USD" ∷ "BTC" ∷ "ETH" ∷ "BNB" ∷ "SOL" ∷ []

abbrev pub quote_suffixes : List String
quote_suffixes =
    "USDT" ∷ "USDC" ∷ "FDUSD" ∷ "USDS" ∷ "TUSD" ∷ "DAI" ∷ "FRAX" ∷ "BUSD" ∷ "USDD" ∷ "PYUSD" ∷ "USD"
    ∷ "EUR" ∷ "GBP" ∷ "BTC" ∷ "ETH" ∷ "BNB" ∷ "SOL" ∷ []

-- The two parts of a dashed pair.
abbrev pub dashed_pair : List String → Option (String × String)
dashed_pair (base ∷ quote ∷ []) =
    if not (str_eq base "") && not (str_eq quote "") then some (base, quote) else none
dashed_pair _ = none

abbrev pub front_of : Option (String × String) → String
front_of none = ""
front_of (some (front, suffix)) = front

module _ (unicode : Unicode) where
  -- `strings.ToUpper(strings.TrimSpace(s))`
  unfoldable pub upper_trimmed : String → String
  upper_trimmed s = map_text unicode.upper (trim_space s)

  unfoldable pub normalize_asset : String → String
  normalize_asset s =
      let s' = upper_trimmed s in
      if str_eq s' "USD₮0" || str_eq s' "USD₮"
      then "USDT"
      else if str_eq s' "AFFUSDE"
      then "AFFSENTORAENT"
      else s'

  unfoldable pub is_stablecoin : String → Bool
  is_stablecoin s =
      is_one_of (normalize_asset s)
        ("USDT" ∷ "USDC" ∷ "DAI" ∷ "BUSD" ∷ "TUSD" ∷ "FRAX" ∷ "USD" ∷ "USDD" ∷ "PYUSD" ∷ [])

  -- `splitPair`: `none` for ("", "").
  unfoldable pub split_pair : String → Option (String × String)
  split_pair pair =
      let pair' = upper_trimmed pair in
      elim (dashed_pair (split_dash pair')) [
        | some parts ↦ some parts
        | none ↦ strip_first pair_quotes (remove_dashes pair')
      ]

  unfoldable pub trade_base_asset : String → String
  trade_base_asset symbol =
      let sym = upper_trimmed symbol in
      let concatenated = front_of (strip_first quote_suffixes sym) in
      elim (before_dash sym) [
        | none ↦ concatenated
        | some front ↦ if str_eq front "" then concatenated else front
      ]

  module _ {F : Type 0} (floats : Floats F) where
    abbrev pub priced_fee : Trade F → String → Option (String → ℕ → F) → F
    priced_fee t fee_asset none = floats.zero
    priced_fee t fee_asset (some price) =
        if floats.less floats.zero (price fee_asset t.timestamp)
        then floats.mul t.fee (price fee_asset t.timestamp)
        else floats.zero

    unfoldable pub normalize_fee : Trade F → Option (String → ℕ → F) → F × String
    normalize_fee t price =
        let fee_asset = upper_trimmed t.fee_asset in
        let base = trade_base_asset t.symbol in
        if floats.equal t.fee floats.zero
        then (floats.zero, if str_eq (trim_space t.fee_asset) "" then quote_usd else fee_asset)
        else if str_eq fee_asset ""
        then (t.fee, quote_usd)
        else if is_stablecoin fee_asset
        then (t.fee, quote_usd)
        else if not (str_eq base "") && str_eq fee_asset base
        then (if is_zero t.timestamp then floats.zero else floats.mul t.fee t.price, quote_usd)
        else (priced_fee t fee_asset price, quote_usd)
