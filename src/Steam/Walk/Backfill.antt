-- ===== src/Steam/Walk/Backfill.antt =====
-- The purchases of internal/infrastructure/clients/steam: a backfill in capped runs of
-- `fetchMarketHistory`, each of which resumes one page before the place where the last one stopped.
use wealthfolio_connect_self.Prelude.{
  ℕ, zero, suc, ◌+◌, ◌-◌, ◌*◌, ◌≤◌, ◌<◌, ltb, leb, String, Bool, true, false, ◌||◌, some, ◌≡◌, refl,
  sym, ◌∙◌, inl, inr, arith, str_eq, Bool-cases,
}
use native.Mathlib.Nat.{suc-mul, zero-mul}
use wealthfolio_connect_self.Prelude.Int.{ℤ, pos}
use wealthfolio_connect_self.Domain.Error.{Fetched}
use wealthfolio_connect_self.Steam.Cursors.{
  CursorJson, ProvenanceCursor, ProvenanceOutcome, decode_market_resume, market_start,
  merge_provenance_cursor, no_cursor,
}
use wealthfolio_connect_self.Steam.Walk.Reach.{IsSteady, fetch-IsWalked}
use wealthfolio_connect_self.Steam.Walk.Market.{
  MarketPage, MarketFetched, market_outcome, market_run,
}

module _ {F : Type 0} (ask : ℕ → ℕ → Fetched (MarketPage F)) (count : ℕ) where
  module _ (json : CursorJson) (encode_offset : ℤ → String) (now : ℕ) where
    -- The JSON of an offset reads back.
    pub record IsOffsetJson : Type 0 where
      pub written : (n : ℕ) → str_eq (encode_offset (pos n)) "" ≡ false
      pub read_back : (n : ℕ) → json.decode_offset (encode_offset (pos n)) ≡ some (pos n)

    -- Where the next run starts.
    abbrev starts_at : ProvenanceCursor → ℕ
    starts_at pc = market_start (decode_market_resume json pc.resume)

    -- One of the next runs comes to the end; each starts from what the last one stored.
    unfoldable pub is_backfilled : ℕ → ℕ → ProvenanceCursor → Bool
    is_backfilled max_pages zero pc = false
    is_backfilled max_pages (suc k) pc =
        let out = market_run ask json encode_offset max_pages now pc in
        let later = is_backfilled max_pages k (merge_provenance_cursor pc out) in
        out.complete || later

    market_run-finished :
        (steady : IsSteady ask count) (c : ℕ) (pc : ProvenanceCursor)
        → count ≤ starts_at pc + suc c * 500
        → (market_run ask json encode_offset (suc c) now pc).complete ≡ true
    unfolding market_run market_outcome
    market_run-finished steady c pc h =
        (fetch-IsWalked ask count steady c (starts_at pc)).finished h

    decode_market_resume-written :
        (offsets : IsOffsetJson) (n : ℕ)
        → decode_market_resume json (encode_offset (pos n)) ≡ some n
    unfolding decode_market_resume
    decode_market_resume-written offsets n =
        rw (offsets.written n, offsets.read_back n, decode_market_resume) refl

    merge_provenance_cursor-capped :
        (pc : ProvenanceCursor) (out : ProvenanceOutcome)
        → out.complete ≡ false
        → str_eq out.resume "" ≡ false
        → (merge_provenance_cursor pc out).resume ≡ out.resume
    unfolding merge_provenance_cursor
    merge_provenance_cursor-capped pc out partial written = ground (arith, partial, written)

    market_outcome-complete :
        (r : MarketFetched F) → (market_outcome encode_offset now r).complete ≡ r.complete
    unfolding market_outcome
    market_outcome-complete r = refl

    market_outcome-capped :
        (r : MarketFetched F) (n : ℕ)
        → r.next ≡ pos n
        → 0 < n
        → (market_outcome encode_offset now r).resume ≡ encode_offset (pos n)
    unfolding market_outcome
    market_outcome-capped r n at some_read =
        let ahead : ltb 0 n ≡ true = ground (arith, some_read) in rw (at, ahead) refl

    -- A capped run leaves the next one a start one page before the place where it stopped.
    market_run-stopped :
        (steady : IsSteady ask count) (offsets : IsOffsetJson) (c : ℕ) (pc : ProvenanceCursor)
        → starts_at pc + suc c * 500 < count
        → ((market_run ask json encode_offset (suc c) now pc).complete ≡ false)
          × (starts_at
                (merge_provenance_cursor pc (market_run ask json encode_offset (suc c) now pc))
              ≡ starts_at pc + c * 500)
    unfolding market_run market_start
    market_run-stopped steady offsets c pc h =
        let reach = starts_at pc + suc c * 500 in
        let (partial, at) = (fetch-IsWalked ask count steady c (starts_at pc)).stopped h in
        let out = market_run ask json encode_offset (suc c) now pc in
        let resume : out.resume ≡ encode_offset (pos reach) =
          market_outcome-capped _ reach at (omega arith) in
        let partial' : out.complete ≡ false = market_outcome-complete _ ∙ partial in
        let kept =
          merge_provenance_cursor-capped pc out partial' (rw resume (offsets.written reach))
          ∙ resume in
        (partial', rw (kept, decode_market_resume-written offsets reach) (omega arith))

    or_later : (a b : Bool) → b ≡ true → (a || b) ≡ true
    or_later a b h = ground (arith, h)

    later_reach :
        (k c off : ℕ)
        → count ≤ off + (suc k * suc c + suc (suc c)) * 500
        → count ≤ off + suc c * 500 + (k * suc c + suc (suc c)) * 500
    later_reach k c off h = omega (arith, h, suc-mul k (suc c))

    backfill_from :
        (steady : IsSteady ask count) (offsets : IsOffsetJson) (c k : ℕ) (pc : ProvenanceCursor)
        → count ≤ starts_at pc + (k * suc c + suc (suc c)) * 500
        → is_backfilled (suc (suc c)) (suc k) pc ≡ true
    unfolding is_backfilled
    backfill_from steady offsets c zero pc h =
        let ended = market_run-finished steady (suc c) pc (omega (arith, h, zero-mul (suc c))) in
        rw ended refl
    backfill_from steady offsets c (suc k) pc h =
        elim (Bool-cases (leb count (starts_at pc + suc (suc c) * 500))) [
          | inl all ↦ rw (market_run-finished steady (suc c) pc (ground (arith, all))) refl
          | inr some_left ↦
              let on =
                (market_run-stopped steady offsets (suc c) pc (ground (arith, some_left))).1 in
              let next = later_reach k c (starts_at pc) h in
              let out = market_run ask json encode_offset (suc (suc c)) now pc in
              or_later out.complete _ (
                backfill_from steady offsets c k (merge_provenance_cursor pc out)
                  (rw (sym on) at next))
        ]

    -- On a steady Steam, which answers every request with one total and with rows below it, with a
    -- cap of two pages at least, offsets that read back from their JSON, and runs that each resume
    -- from the offset that the last one stored: if the purchases fill at most k * (max_pages - 1)
    -- + max_pages pages of 500, one of the first k + 1 runs of Fetch walks to the end.
    pub is_backfilled-enough :
        (steady : IsSteady ask count) (offsets : IsOffsetJson) (max_pages k : ℕ)
        → 2 ≤ max_pages
        → count ≤ (k * (max_pages - 1) + max_pages) * 500
        → is_backfilled max_pages (suc k) no_cursor ≡ true
    is_backfilled-enough steady offsets zero k two h = absurd (omega (arith, two))
    is_backfilled-enough steady offsets (suc zero) k two h = absurd (omega (arith, two))
    is_backfilled-enough steady offsets (suc (suc c)) k two h =
        let same : suc (suc c) - 1 ≡ suc c = omega arith in
        backfill_from steady offsets c k no_cursor (
          let first : count ≤ (k * suc c + suc (suc c)) * 500 = rw same at h in
          omega (arith, first))

    -- With a cap of one page every run after the first reads the same page again.
    pub is_backfilled-single_page :
        (steady : IsSteady ask count) (offsets : IsOffsetJson) (k : ℕ) (pc : ProvenanceCursor)
        → 500 < count
        → starts_at pc ≡ 0
        → is_backfilled 1 k pc ≡ false
    unfolding is_backfilled
    is_backfilled-single_page steady offsets zero pc h first = refl
    is_backfilled-single_page steady offsets (suc k) pc h first =
        let (partial, on) = market_run-stopped steady offsets 0 pc (omega (arith, h, first)) in
        let later =
          is_backfilled-single_page steady offsets k
            (merge_provenance_cursor pc (market_run ask json encode_offset 1 now pc)) h
            (omega (arith, on, first)) in
        ground (arith, partial, later)
