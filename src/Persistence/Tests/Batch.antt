-- ===== src/Persistence/Tests/Batch.antt =====
-- Batches of activities, one of them on a database that fails.
use mathlib.Core.List.{◌++◌}
use wealthfolio_connect_self.Prelude.{
  ℕ, String, ◌≡◌, refl, true, false, Option, none, some, List, [], ◌∷◌, map, is_some, arith, All,
}
use wealthfolio_connect_self.Prelude.Map.{lookup}
use wealthfolio_connect_self.Domain.Brokerage.{Activity}
use wealthfolio_connect_self.Domain.Error.{Error, foreign, ok}
use wealthfolio_connect_self.Persistence.ActivityModel.{ActivityPo}
use wealthfolio_connect_self.Persistence.ActivityModel.Convert.{
  activity_from_domain, activity_to_domain,
}
use wealthfolio_connect_self.Persistence.ActivityModel.RoundTrip.{
  kept_symbol, kept_option, activity_to_domain-activity_from_domain,
}
use wealthfolio_connect_self.Persistence.Activities.{
  ActivityTable, chunks_of, rows_of, upsert_batch, known_identities, fingerprints_of, create_all,
  collect,
}
use wealthfolio_connect_self.Persistence.Activities.Review.{
  reconciled, canonical, flagged, reconciled-canonical,
}
use wealthfolio_connect_self.Persistence.Activities.Rows.{
  IsDistinct, find_row, last_row, rows_of-Faithful,
}
use wealthfolio_connect_self.Persistence.Activities.Batch.{IsAtomic, upsert_batch-Atomic}

abbrev bought : Activity ℕ
bought = record {
  id = "x";
  account_id = "a1";
  symbol = none;
  currency_symbol = none;
  is_external = false;
  option_symbol = none;
  price = 2;
  units = 3;
  amount = 6;
  currency = record { code = "USD"; name = "" };
  type = "BUY";
  subtype = "";
  raw_type = "";
  option_type = "";
  description = "";
  trade_date = 10;
  settlement_date = none;
  fee = 0;
  fee_asset = "";
  fx_rate = none;
  institution = "";
  external_reference_id = "";
  provider_type = "";
  source_system = "";
  source_record_id = "r1";
  source_group_id = "";
  source_fingerprint = "fp";
  needs_review = false;
}

abbrev twin : Activity ℕ
twin = record bought { source_record_id = "r2" }

activity_to_domain-activity_from_domain_example :
    activity_to_domain (activity_from_domain 0 "a2" bought) ≡ record bought {
      account_id = "a2";
      symbol = kept_symbol none;
      currency_symbol = kept_symbol none;
      option_symbol = kept_option none;
      provider_type = "CUSTOM";
      source_system = "CUSTOM";
    }
activity_to_domain-activity_from_domain_example =
    activity_to_domain-activity_from_domain 0 "a2" bought

reconciled-canonical_example :
    reconciled [] (bought ∷ twin ∷ [])
    ≡ map (flagged (canonical [] (bought ∷ twin ∷ []))) (bought ∷ twin ∷ [])
reconciled-canonical_example = reconciled-canonical [] (bought ∷ twin ∷ [])

rows_of-Faithful_example :
    IsDistinct (rows_of 0 "a1" [] (bought ∷ twin ∷ bought ∷ []))
    × All (λ row. row.account_id ≡ "a1") (rows_of 0 "a1" [] (bought ∷ twin ∷ bought ∷ []))
    × ((id : String)
        → find_row id (rows_of 0 "a1" [] (bought ∷ twin ∷ bought ∷ []))
          ≡ last_row 0 "a1" id none (
              map
                (flagged (canonical [] (bought ∷ twin ∷ bought ∷ [])))
                (bought ∷ twin ∷ bought ∷ [])))
rows_of-Faithful_example = rows_of-Faithful 0 "a1" [] (bought ∷ twin ∷ bought ∷ [])

abbrev rolled_back :
    List (ActivityPo ℕ) → Option Error × List (ActivityPo ℕ) → Option Error × List (ActivityPo ℕ)
rolled_back d (none, d') = (none, d')
rolled_back d (some e, d') = (some e, d)

-- Its INSERT stores the rows and then reports an error.
abbrev full_disk : ActivityTable ℕ (List (ActivityPo ℕ))
full_disk = record {
  with_fingerprints = λ account_id fingerprints d. ok [];
  create = λ rows d. (some (foreign "disk full"), d ++ rows);
  delete = λ account_id ids d. (none, d);
  transaction = λ run d. rolled_back d (run d);
}

rolled_back-kept :
    (d : List (ActivityPo ℕ)) (p : Option Error × List (ActivityPo ℕ))
    → is_some (rolled_back d p).0 ≡ true
    → (rolled_back d p).1 ≡ d
rolled_back-kept d (none, d') h = ground (arith, h)
rolled_back-kept d (some e, d') h = refl

full_disk-IsAtomic : IsAtomic full_disk
unfolding IsAtomic
full_disk-IsAtomic run d = rolled_back-kept d (run d)

upsert_batch-Atomic_example : (upsert_batch 0 full_disk "a1" (bought ∷ []) []).1 ≡ []
unfolding upsert_batch known_identities fingerprints_of create_all chunks_of rows_of collect lookup
upsert_batch-Atomic_example =
    upsert_batch-Atomic 0 full_disk "a1" (bought ∷ []) [] full_disk-IsAtomic refl
