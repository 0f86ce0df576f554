-- ===== src/Clients/Cex/Trades.antt =====
-- The loop over the trades of `Translate` and `newTradeActivity`, of
-- internal/infrastructure/clients/cexcommon/cexcommon.go.
use Prim.Native.String.{◌++◌}
use mathlib.Core.List.{◌++◌ as ◌+++◌}
use wealthfolio_connect_self.Prelude.{
  ℕ, String, Bool, true, false, not, ◌&&◌, ◌||◌, Option, none, some, List, [], ◌∷◌, str_eq,
  if◌then◌else◌,
}
use wealthfolio_connect_self.Prelude.Text.{Unicode, map_text}
use wealthfolio_connect_self.Domain.Brokerage.{Currency, Exchange, Activity}
use wealthfolio_connect_self.Clients.Cex.{
  Floats, Trade, quote_usd, normalize_asset, is_stablecoin, split_pair, normalize_fee,
}

abbrev pub no_exchange_suffix : String → String → Exchange
no_exchange_suffix code name = record { code = code; mic_code = ""; name = name; suffix = "" }

abbrev pub usd : Currency
usd = record { code = quote_usd; name = "" }

-- `base == "" || quote == ""`, then `splitPair`, then `continue`.
abbrev pub both_named : Option (String × String) → Option (String × String)
both_named none = none
both_named (some (base, quote)) =
    if str_eq base "" || str_eq quote "" then none else some (base, quote)

module _ (unicode : Unicode) where
  -- `strings.EqualFold(s, t)`
  unfoldable pub equal_fold : String → String → Bool
  equal_fold s t =
      str_eq (map_text (λ c. unicode.lower (unicode.upper c)) s)
        (map_text (λ c. unicode.lower (unicode.upper c)) t)

  unfoldable pub resolve_pair : String → String → String → Option (String × String)
  resolve_pair base quote symbol =
      if str_eq base "" || str_eq quote ""
      then both_named (split_pair unicode symbol)
      else some (base, quote)

  module _ {F : Type 0} (floats : Floats F) where
    -- Whether the amounts of a trade stay in the quote asset, for want of a conversion to USD.
    unfoldable pub is_unconverted : String → Bool
    is_unconverted quote =
        let q = normalize_asset unicode quote in
        not (str_eq q "") && not (str_eq q quote_usd) && not (is_stablecoin unicode q)

    abbrev pub noted : String → String → String
    noted description note =
        if str_eq note ""
        then description
        else if str_eq description ""
        then note
        else description ++ "; " ++ note

    unfoldable pub new_trade_activity :
        Trade F → String → String → String → F → F → F → String → String → String → Activity F
    new_trade_activity t account_id asset activity_type units amount fee fee_asset slug leg =
        let q = normalize_asset unicode t.quote_asset in
        let currency =
          if is_unconverted t.quote_asset then record { code = q; name = "" } else usd in
        let description =
          if is_unconverted t.quote_asset
          then "Quoted in " ++ q ++ "; no USD conversion applied"
          else "" in
        record {
          id = t.id ++ "-" ++ leg;
          account_id = account_id;
          symbol = some (record {
            symbol = asset;
            raw_symbol = asset;
            description = "";
            name = "";
            type = record { code = "CRYPTO"; description = ""; is_supported = true };
            exchange = no_exchange_suffix (map_text unicode.upper slug) "";
            currency = currency;
            figi_code = "";
          });
          currency_symbol = none;
          is_external = false;
          option_symbol = none;
          price = if floats.equal units floats.zero then floats.zero else floats.div amount units;
          units = units;
          amount = amount;
          currency = currency;
          type = activity_type;
          subtype = "";
          raw_type = map_text unicode.upper activity_type;
          option_type = "";
          description = noted description t.note;
          trade_date = t.timestamp;
          settlement_date = none;
          fee = fee;
          fee_asset = fee_asset;
          fx_rate = none;
          institution = "";
          external_reference_id = "";
          provider_type = slug;
          source_system = slug;
          source_record_id = t.id ++ "-" ++ leg;
          source_group_id = t.id;
          source_fingerprint = "";
          needs_review = is_unconverted t.quote_asset || not (str_eq t.note "");
        }

    -- The two legs of a trade with its pair, the source leg first.
    unfoldable pub legs_of :
        Option (String → ℕ → F) → String → String → Trade F → String → String → List (Activity F)
    legs_of price account_id slug trade base quote =
        let t = record trade { base_asset = base; quote_asset = quote } in
        let value = floats.mul t.price t.quantity in
        let buy = not (equal_fold t.side "sell") in
        let (fee, fee_asset) =
          normalize_fee unicode floats (record t { symbol = base ++ "-" ++ quote }) price in
        let quote_leg =
          new_trade_activity t account_id (normalize_asset unicode quote)
            (if buy then "SELL" else "BUY") value value floats.zero "" slug "quote" in
        let base_leg =
          new_trade_activity t account_id (normalize_asset unicode base)
            (if buy then "BUY" else "SELL") t.quantity value fee fee_asset slug "base" in
        if buy then quote_leg ∷ base_leg ∷ [] else base_leg ∷ quote_leg ∷ []

    unfoldable pub activities_of :
        Option (String → ℕ → F) → String → String → List (Trade F) → List (Activity F)
    activities_of price account_id slug [] = []
    activities_of price account_id slug (t ∷ ts) =
        let rest = activities_of price account_id slug ts in
        elim (resolve_pair t.base_asset t.quote_asset t.symbol) [
          | none ↦ rest
          | some (base, quote) ↦ legs_of price account_id slug t base quote +++ rest
        ]
