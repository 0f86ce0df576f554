-- ===== src/Persistence/ActivityModel/RoundTrip.antt =====
-- What an activity is after a round trip through its row, of
-- internal/infrastructure/persistence/activity_model.go.
use wealthfolio_connect_self.Prelude.{
  ℕ, String, ◌≡◌, refl, sym, ◌&&◌, Option, none, some, str_eq, if◌then◌else◌, arith, eq_iff, inl,
  inr, Option-cases,
}
use wealthfolio_connect_self.Domain.Brokerage.{Symbol, OptionSymbol, Activity}
use wealthfolio_connect_self.Persistence.ActivityModel.{or_zero_time, nullable_time, or_custom}
use wealthfolio_connect_self.Persistence.ActivityModel.Convert.{
  activity_from_domain, symbol_of, currency_symbol_of, option_symbol_of, activity_to_domain,
}

-- What the columns keep of an optional symbol: one without a ticker and a raw symbol is lost.
pub kept_symbol : Option Symbol → Option Symbol
kept_symbol none = none
kept_symbol (some s) = if str_eq s.symbol "" && str_eq s.raw_symbol "" then none else some s

-- What they keep of an option: it needs a ticker, and its underlying loses its name.
pub kept_option : {F : Type 0} → Option (OptionSymbol F) → Option (OptionSymbol F)
kept_option none = none
kept_option (some o) =
    if str_eq o.ticker ""
    then none
    else some (record o { underlying = record (o.underlying) { name = "" } })

or_zero_time-nullable_time : (t : ℕ) → or_zero_time (nullable_time t) ≡ t
unfolding nullable_time
or_zero_time-nullable_time t = ground arith

module _ {F : Type 0} (zero_float : F) where
  symbol_of-activity_from_domain :
      (id : String) (a : Activity F)
      → symbol_of (activity_from_domain zero_float id a) ≡ kept_symbol a.symbol
  unfolding symbol_of activity_from_domain kept_symbol
  symbol_of-activity_from_domain id a = elim (Option-cases a.symbol) [
    | inl e ↦ rw e refl
    | inr (s, e) ↦ rw e (ground (arith, eq_iff s.symbol "", eq_iff s.raw_symbol ""))
  ]

  currency_symbol_of-activity_from_domain :
      (id : String) (a : Activity F)
      → currency_symbol_of (activity_from_domain zero_float id a) ≡ kept_symbol a.currency_symbol
  unfolding currency_symbol_of activity_from_domain kept_symbol
  currency_symbol_of-activity_from_domain id a = elim (Option-cases a.currency_symbol) [
    | inl e ↦ rw e refl
    | inr (s, e) ↦ rw e (ground (arith, eq_iff s.symbol "", eq_iff s.raw_symbol ""))
  ]

  option_symbol_of-activity_from_domain :
      (id : String) (a : Activity F)
      → option_symbol_of (activity_from_domain zero_float id a) ≡ kept_option a.option_symbol
  unfolding option_symbol_of activity_from_domain kept_option
  option_symbol_of-activity_from_domain id a = elim (Option-cases a.option_symbol) [
    | inl e ↦ rw e refl
    | inr (o, e) ↦
        rw e (ground (arith, eq_iff o.ticker "", or_zero_time-nullable_time o.expiration_date))
  ]

-- Reading the row of an activity gives the activity back under the account that it was stored for,
-- with an empty provider or source system named CUSTOM, without a symbol that has neither ticker nor
-- raw symbol, without an option that has no ticker, and without the name of an option's underlying.
pub activity_to_domain-activity_from_domain :
    {F : Type 0} (zero_float : F) (id : String) (a : Activity F)
    → activity_to_domain (activity_from_domain zero_float id a) ≡ record a {
      account_id = id;
      symbol = kept_symbol a.symbol;
      currency_symbol = kept_symbol a.currency_symbol;
      option_symbol = kept_option a.option_symbol;
      provider_type = or_custom a.provider_type;
      source_system = or_custom a.source_system;
    }
unfolding activity_to_domain activity_from_domain
activity_to_domain-activity_from_domain zero_float id a =
    rw
      (
        sym (symbol_of-activity_from_domain zero_float id a),
        sym (currency_symbol_of-activity_from_domain zero_float id a),
        sym (option_symbol_of-activity_from_domain zero_float id a),
      )
      refl
