-- ===== src/Tests/HistoryTests.antt =====
-- src/qte_shared/history_cache.py at concrete inputs.
use quant_trading_engine.Floats.Whole.{whole}
use quant_trading_engine.HistoryCache.{
  Frame, HistoryRequest, covers_request, day, fetch_history, merge_frames,
}
use quant_trading_engine.HistoryCache.Merged.{IsMerged, merge_frames-IsMerged}
use quant_trading_engine.Prelude.{[], false, refl, some, true, ℕ, ◌*◌, ◌∷◌, ◌≡◌}

abbrev on_disk : Frame ℕ
on_disk = (10, 1) ∷ (30, 3) ∷ []

abbrev fetched : Frame ℕ
fetched = (30, 4) ∷ (20, 2) ∷ []

newer_wins : merge_frames on_disk fetched ≡ (10, 1) ∷ (20, 2) ∷ (30, 4) ∷ []
unfolding merge_frames
newer_wins = refl

-- Days 5 to 9 are enough for a request from day 1 to day 13; days 5 to 8 are not.
abbrev thirteen_days : HistoryRequest
thirteen_days = record { start = 1; end_date = 13 }

abbrev days_five_to : ℕ → Frame ℕ
days_five_to last = (5 * day, 0) ∷ (last * day, 0) ∷ []

covered : covers_request (days_five_to 9) thirteen_days ≡ true
unfolding covers_request
covered = refl

uncovered : covers_request (days_five_to 8) thirteen_days ≡ false
unfolding covers_request
uncovered = refl

-- A short answer does not shorten the file.
fetched_and_kept :
    fetch_history true true fetched (record { start = 0; end_date = 9 }) (some on_disk)
    ≡ (fetched, some ((10, 1) ∷ (20, 2) ∷ (30, 4) ∷ []))
unfolding fetch_history
fetched_and_kept = refl

merge_frames-IsMerged_example : IsMerged on_disk fetched (merge_frames on_disk fetched)
merge_frames-IsMerged_example =
    merge_frames-IsMerged on_disk fetched (refl, (refl, tt)) (refl, (refl, tt))
