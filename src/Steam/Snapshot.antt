-- ===== src/Steam/Snapshot.antt =====
-- `Fetch` of internal/infrastructure/clients/steam/reconcile.go: the account and the snapshot.
use wealthfolio_connect_self.Prelude.{
  ℕ, String, Bool, true, false, not, ◌&&◌, ◌||◌, none, some, [], ◌∷◌, is_empty, if◌then◌else◌,
}
use wealthfolio_connect_self.Prelude.Int.{pos}
use wealthfolio_connect_self.Domain.Brokerage.{Connection, Account}
use wealthfolio_connect_self.Sync.Ports.{BrokerSnapshot}
use wealthfolio_connect_self.Steam.Model.{SteamFloats}
use wealthfolio_connect_self.Steam.Assemble.{Assembled}

abbrev pub steam_connection : ℕ → Connection
steam_connection now = record {
  id = "steam-conn";
  authorization_id = "steam-auth";
  brokerage_name = "Steam";
  brokerage_slug = "steam";
  display_name = "Steam";
  logo_url = "";
  square_logo_url = "";
  disabled = false;
  name = "Steam";
  status = "active";
  updated_at = now;
}

-- `txComplete`, and the account with it.
unfoldable pub transactions_complete : Bool → Bool → Bool → Bool → Bool → Bool → Bool
transactions_complete complete has_session has_key history market trades =
    complete
    && (history || not has_session)
    && (market || not has_session)
    && (trades || not has_key)

module _ {F : Type 0} (floats : SteamFloats F) where
  unfoldable pub steam_account : String → Bool → ℕ → Account F
  steam_account id tx_complete now = record {
    id = id;
    name = "Steam CS2";
    account_number = "";
    type = "SECURITIES";
    raw_type = "STEAM_CS2";
    currency = "USD";
    balance_total = floats.zero;
    balance_currency = "USD";
    brokerage_authorization = "steam-auth";
    institution_name = "Steam";
    sync_enabled = true;
    shared_with_household = false;
    is_paper = false;
    status = "open";
    created_date = now;
    last_tx_sync = if tx_complete then some now else none;
    last_holdings_sync = some now;
    first_tx_date = none;
    initial_tx_sync_done = tx_complete;
    initial_holdings_done = true;
    activity_sync_offset = pos 0;
    owner_user_id = "";
    owner_full_name = "";
    owner_email = "";
  }

  unfoldable pub steam_snapshot : String → Bool → Bool → ℕ → Assembled F → BrokerSnapshot F
  steam_snapshot account_id complete tx_complete now made = record {
    connection = steam_connection now;
    connections = [];
    accounts = steam_account account_id tx_complete now ∷ [];
    holdings =
        record {
          account_id = account_id;
          balances = [];
          positions = made.positions;
          option_positions = [];
          captured_at = now;
          partial = not complete;
        }
        ∷ [];
    activities = (account_id, made.activities) ∷ [];
    retracted_activities =
        if not (is_empty made.retractions) && complete
        then (account_id, made.retractions) ∷ []
        else [];
  }
