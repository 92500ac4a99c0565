-- ===== src/HistoryCache.antt =====
-- src/qte_shared/history_cache.py: vendor history kept on disk. A frame is a list of bars with their
-- instants, in microseconds, and the file a frame or none where there is none to read. The vendor is a
-- parameter: what it answers to the request.
pub mod Merged
use quant_trading_engine.Prelude.{
  Bool, Key-Text, Key-pair, Key-ℕ, List, Option, [], false, if◌then◌else◌, leb, ltb, nat_eq, none,
  or_else, some, ℕ, ◌&&◌, ◌*◌, ◌++◌, ◌+◌, ◌/◌, ◌||◌, ◌∷◌,
}
use quant_trading_engine.Timeframes.{Key-Timeframe, second}

abbrev pub Frame {ℓ} : Type ℓ → Type ℓ
Frame V = List (ℕ × V)

abbrev pub day : ℕ
day = 86400 * second

-- A request from one date to another, both included, as days since 1970.
pub record HistoryRequest : Type 0 where
  pub start : ℕ
  pub end_date : ℕ

module _ {ℓ} {V : Type ℓ} where
  -- `sort_index`, of a frame whose instants differ.
  abbrev pub insert_row : ℕ → V → Frame V → Frame V
  insert_row t v [] = (t, v) ∷ []
  insert_row t v ((u, w) ∷ frame) =
      let rest = insert_row t v frame in if ltb t u then (t, v) ∷ (u, w) ∷ frame else (u, w) ∷ rest

  unfoldable pub sort_index : Frame V → Frame V
  sort_index [] = []
  sort_index ((t, v) ∷ frame) = insert_row t v (sort_index frame)

  abbrev pub has_instant : ℕ → Frame V → Bool
  has_instant t [] = false
  has_instant t ((u, w) ∷ frame) = nat_eq u t || has_instant t frame

  -- `frame[~frame.index.duplicated(keep="last")]`
  unfoldable pub keep_last : Frame V → Frame V
  keep_last [] = []
  keep_last ((t, v) ∷ frame) =
      let rest = keep_last frame in if has_instant t frame then rest else (t, v) ∷ rest

  unfoldable pub merge_frames : Frame V → Frame V → Frame V
  unfolding sort_index keep_last
  merge_frames [] incoming = sort_index incoming
  merge_frames (row ∷ existing) [] = sort_index (row ∷ existing)
  merge_frames (row ∷ existing) (next ∷ incoming) =
      sort_index (keep_last ((row ∷ existing) ++ next ∷ incoming))

  abbrev pub last_instant : ℕ → Frame V → ℕ
  last_instant t [] = t
  last_instant t ((u, w) ∷ frame) = last_instant u frame

  -- `covers`: within four days at both ends.
  unfoldable pub covers_request : Frame V → HistoryRequest → Bool
  covers_request [] request = false
  covers_request ((t, v) ∷ frame) request =
      leb (t / day) (request.start + 4) && leb request.end_date (last_instant t frame / day + 4)

  -- `load`, of the bars of the range; no file and one that cannot be read are empty.
  unfoldable pub load_range : Option (Frame V) → HistoryRequest → Frame V
  load_range none request = []
  load_range (some []) request = []
  load_range (some ((t, v) ∷ frame)) request =
      let rest = load_range (some frame) request in
      if leb (request.start * day) t && leb t (request.end_date * day + day)
      then (t, v) ∷ rest
      else rest

  -- `store`: the write may fail, which leaves the file as it was.
  unfoldable pub store : Bool → Frame V → Option (Frame V) → Option (Frame V)
  unfolding merge_frames
  store written [] file = file
  store written (row ∷ frame) file =
      if written then some (merge_frames (or_else file []) (row ∷ frame)) else file

  -- `fetch_history` with a cache: what is returned, and the file afterwards.
  unfoldable pub fetch_history :
      Bool → Bool → Frame V → HistoryRequest → Option (Frame V) → Frame V × Option (Frame V)
  unfolding load_range covers_request store
  fetch_history use_cache written answer request file =
      let cached = load_range file request in
      if use_cache && covers_request cached request
      then (cached, file)
      else (answer, store written answer file)
