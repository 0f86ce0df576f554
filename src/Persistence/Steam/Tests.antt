-- ===== src/Persistence/Steam/Tests.antt =====
-- A table of acquisitions as a function, and a sync that finds a stronger row in it.
use wealthfolio_connect_self.Prelude.{
  ℕ, String, true, ◌&&◌, Option, none, some, List, [], ◌∷◌, str_eq, ◌≡◌, refl, inl, inr, arith,
  if◌then◌else◌,
}
use wealthfolio_connect_self.Prelude.Int.{pos}
use wealthfolio_connect_self.Domain.Error.{Error, ok}
use wealthfolio_connect_self.Steam.Model.{Resolution, SteamAcquisitionRow}
use wealthfolio_connect_self.Persistence.Steam.{SteamAcquisitionPo, SteamTables}
use wealthfolio_connect_self.Persistence.Steam.Table.{IsSteamTable, stored_acquisition}
use wealthfolio_connect_self.Persistence.Steam.Upgrade.{IsUpgrade, save_acquisitions-IsUpgrade}
use wealthfolio_connect_self.Persistence.Steam.Evidence.{
  save_acquisitions, save_acquisition, may_replace, stronger_or_equal_acquisition, evidence_fields,
  confidence_rank, acquisition_of_po,
}
use wealthfolio_connect_self.Persistence.Steam.Written.{AllStored}
use wealthfolio_connect_self.Persistence.Steam.Reported.{
  AllHonest, reported_rows, apply_stored_acquisitions-AllStored,
}
use wealthfolio_connect_self.Prelude.{Bool-cases, ◌⊎◌}
use wealthfolio_connect_self.Prelude.Map.{lookup, insert}
use wealthfolio_connect_self.Steam.Match.{contains}
use wealthfolio_connect_self.Steam.Acquisitions.{
  rows_by_asset, apply_stored_acquisitions, with_stored, keeps_fresh, acquisition_rank,
  acquisition_evidence_score, acquisition_row,
}

abbrev Rows : Type 0
Rows = String → String → Option (SteamAcquisitionPo ℕ)

abbrev committed : Rows → Option Error × Rows → Option Error × Rows
committed d (none, e) = (none, e)
committed d (some err, e) = (some err, d)

abbrev functional : SteamTables ℕ ℕ Rows
functional = record {
  first_snapshot = λ id d. ok none;
  snapshot_assets = λ id d. ok [];
  create_snapshot = λ po d. (none, d);
  create_assets = λ pos d. (none, d);
  create_event = λ po d. (none, d);
  unmatched = λ id d. ok [];
  update_matched = λ id ids d. (none, d);
  create_market_tx = λ po d. (none, d);
  create_trade = λ po d. (none, d);
  delete_lots = λ id d. (none, d);
  create_lot = λ po d. (none, d);
  first_acquisition = λ steam_id asset_id d. ok (d steam_id asset_id);
  acquisitions = λ id d. ok [];
  acquisitions_in = λ id ids d. ok [];
  create_acquisition = λ columns po d. (
    none,
    λ s a.
        if str_eq po.steam_id s && str_eq po.asset_id a
        then some (stored_acquisition columns po (d s a))
        else d s a,
  );
  transaction = λ body d. committed d (body d);
}

commits_or_rolls_back :
    (d : Rows) (result : Option Error × Rows)
    → (committed d result ≡ result) × (result.0 ≡ none)
      ⊎ ((e : Error) × (committed d result ≡ (some e, d)))
commits_or_rolls_back d (none, e) = inl (refl, refl)
commits_or_rolls_back d (some err, e) = inr (err, refl)

functional-IsSteamTable : IsSteamTable functional
functional-IsSteamTable = record {
  row = λ steam_id asset_id d. d steam_id asset_id;
  first-row = λ steam_id asset_id d found h. ground (arith, h);
  create-row = λ columns new d steam_id asset_id. refl;
  commits = λ body d. commits_or_rolls_back d (body d);
}

-- What is known of the asset, and a sync without evidence for it.
abbrev known : SteamAcquisitionPo ℕ
known = record {
  steam_id = "7656";
  asset_id = "a1";
  market_hash_name = "Knife";
  acquired_at = some 10;
  type = "trade";
  reference = "t1";
  cost_basis = none;
  cost_currency = "";
  match_method = "trade_new_assetid";
  match_confidence = "exact";
}

abbrev rows : Rows
rows = λ s a. if str_eq s "7656" && str_eq a "a1" then some known else none

abbrev weaker_row : SteamAcquisitionRow ℕ
weaker_row = record {
  asset_id = "a1";
  market_hash_name = "Knife";
  acquired_at = none;
  type = "unresolved";
  reference = "";
  cost_basis = none;
  cost_currency = "";
  match_method = "unresolved";
  match_confidence = "unresolved";
}

save_acquisitions-IsUpgrade_example :
    IsUpgrade
      (rows "7656" "a1")
      ((save_acquisitions functional "7656" (weaker_row ∷ []) rows).1 "7656" "a1")
unfolding functional-IsSteamTable
save_acquisitions-IsUpgrade_example =
    save_acquisitions-IsUpgrade functional functional-IsSteamTable "7656" (weaker_row ∷ []) rows
      "a1"

abbrev unknown_knife : Resolution ℕ
unknown_knife = record {
  asset = record {
    asset_id = "a1";
    class_id = "c1";
    instance_id = "0";
    amount = pos 1;
    market_hash_name = "Knife";
    marketable = true;
    tradable = true;
    name = "Knife";
    type = "";
    tags = [];
    has_description = true;
  };
  acquired_at = none;
  type = "unresolved";
  reference = "";
  cost_basis = none;
  cost_currency = "";
  match_method = "unresolved";
  match_confidence = "unresolved";
}

abbrev acquisitions : List (SteamAcquisitionRow ℕ)
acquisitions = acquisition_of_po known ∷ []

rows-AllHonest : (id : String) → AllHonest (rows "7656" id)
unfolding confidence_rank
rows-AllHonest id = elim (Bool-cases (str_eq id "a1")) [
  | inl own ↦ rw own (λ h. ground (arith, h))
  | inr other ↦ rw other tt
]

apply_stored_acquisitions-AllStored_example :
    AllStored functional functional-IsSteamTable "7656"
      (reported_rows (unknown_knife ∷ []) acquisitions)
      (save_acquisitions functional "7656" (reported_rows (unknown_knife ∷ []) acquisitions) rows).1
unfolding functional-IsSteamTable rows_by_asset lookup insert save_acquisitions save_acquisition
    may_replace stronger_or_equal_acquisition evidence_fields confidence_rank
    apply_stored_acquisitions with_stored keeps_fresh acquisition_rank acquisition_evidence_score
    acquisition_row acquisition_of_po contains
apply_stored_acquisitions-AllStored_example =
    apply_stored_acquisitions-AllStored functional functional-IsSteamTable "7656"
      (unknown_knife ∷ []) acquisitions rows (refl, tt) rows-AllHonest (refl, tt) refl
