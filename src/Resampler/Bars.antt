-- ===== src/Resampler/Bars.antt =====
-- What an open bar of src/qte_ingestion/resampler.py holds of the ticks that it has seen.
use quant_trading_engine.Floats.{
  Float, Floats, Le, Le-refl, Le-trans, fmax_either, fmax_left, fmax_right, fmin_either, fmin_left,
  fmin_right,
}
use quant_trading_engine.Models.{Candle}
use quant_trading_engine.Prelude.{
  All, Key-Text, Key-ℕ, List, [], arith, false, inl, length, lookup, lookup-insert_self, none, refl,
  some, ℕ, ◌++◌, ◌+◌, ◌∷◌, ◌≡◌, ◌⊎◌,
}
use quant_trading_engine.Resampler.{
  Builder, Resampler, is_spent, open_builder, set_builder, update, visit,
}
use quant_trading_engine.Timeframes.{Key-Timeframe, Timeframe, floor_to_bucket}

module _ ⦃F : Floats⦄ where
  -- A tick as a bar sees it: its price, volume and moment.
  pub record Quote : Type 0 where
    pub price : Float
    pub volume : Float
    pub ts : ℕ

  abbrev pub update_all : Builder → List Quote → Builder
  update_all b [] = b
  update_all b (q ∷ qs) = update_all (update b q.price q.volume) qs

  -- The loop of `add_tick` for one timeframe, over a run of ticks.
  unfoldable pub visits : Timeframe → List Quote → Resampler → List Candle × Resampler
  visits tf [] r = ([], r)
  visits tf (q ∷ qs) r =
      let (bars, r') = visit q.price q.volume q.ts tf r in
      let (more, r'') = visits tf qs r' in (bars ++ more, r'')

  abbrev pub InBucket : Timeframe → ℕ → Quote → Type 0
  InBucket tf bucket q = floor_to_bucket q.ts tf ≡ bucket

  visit-InBucket :
      (tf : Timeframe) (b : Builder) (q : Quote) (r : Resampler)
      → InBucket tf b.open_time q
      → is_spent tf b.open_time r.last_closed ≡ false
      → lookup tf r.builders ≡ some b
      → visit q.price q.volume q.ts tf r ≡ ([], set_builder tf (update b q.price q.volume) r)
  unfolding visit
  visit-InBucket tf b q r inside fresh found = ground arith

  -- Ticks in the bucket of the open bar go into that bar, one after the other, and close nothing.
  pub visits-InBucket :
      (tf : Timeframe) (b : Builder) (qs : List Quote) (r : Resampler)
      → All (InBucket tf b.open_time) qs
      → is_spent tf b.open_time r.last_closed ≡ false
      → lookup tf r.builders ≡ some b
      → ((visits tf qs r).0 ≡ []) × (lookup tf (visits tf qs r).1.builders ≡ some (update_all b qs))
  unfolding visits update set_builder
  visits-InBucket tf b [] r inside fresh found = (refl, found)
  visits-InBucket tf b (q ∷ qs) r inside fresh found =
      let b' = update b q.price q.volume in
      let found' = lookup-insert_self tf b' r.builders in
      rw (visit-InBucket tf b q r inside.0 fresh found)
        (visits-InBucket tf b' qs (set_builder tf b' r) inside.1 fresh found')

  -- `p` is the price of one of the ticks.
  abbrev pub IsPriceOf : Float → List Quote → Type 0
  IsPriceOf p [] = ⊥
  IsPriceOf p (q ∷ qs) = (p ≡ q.price) ⊎ IsPriceOf p qs

  abbrev pub last_price : Float → List Quote → Float
  last_price p [] = p
  last_price p (q ∷ qs) = last_price q.price qs

  update_all-high :
      (b : Builder) (qs : List Quote)
      → let high = (update_all b qs).high in
        Le b.high high × All (λ q. Le q.price high) qs × ((high ≡ b.high) ⊎ IsPriceOf high qs)
  unfolding update
  update_all-high b [] = (Le-refl b.high, tt, inl refl)
  update_all-high b (q ∷ qs) =
      let b' = update b q.price q.volume in
      let high = (update_all b' qs).high in
      let (above, all, attained) = update_all-high b' qs in
      (
        Le-trans b.high b'.high high (fmax_left b.high q.price) above,
        (Le-trans q.price b'.high high (fmax_right b.high q.price) above, all),
        ground (arith, attained, fmax_either b.high q.price),
      )

  update_all-low :
      (b : Builder) (qs : List Quote)
      → let low = (update_all b qs).low in
        Le low b.low × All (λ q. Le low q.price) qs × ((low ≡ b.low) ⊎ IsPriceOf low qs)
  unfolding update
  update_all-low b [] = (Le-refl b.low, tt, inl refl)
  update_all-low b (q ∷ qs) =
      let b' = update b q.price q.volume in
      let low = (update_all b' qs).low in
      let (below, all, attained) = update_all-low b' qs in
      (
        Le-trans low b'.low b.low below (fmin_left b.low q.price),
        (Le-trans low b'.low q.price below (fmin_right b.low q.price), all),
        ground (arith, attained, fmin_either b.low q.price),
      )

  update_all-rest :
      (b : Builder) (qs : List Quote)
      → ((update_all b qs).open_price ≡ b.open_price)
        × ((update_all b qs).close ≡ last_price b.close qs)
        × ((update_all b qs).tick_count ≡ b.tick_count + length qs)
  unfolding update
  update_all-rest b [] = (refl, refl, omega arith)
  update_all-rest b (q ∷ qs) =
      let (o, c, n) = update_all-rest (update b q.price q.volume) qs in (o, c, omega (arith, n))

  -- The bar that opens with `q` and then sees `qs`, all in one bucket: its open is the first price,
  -- its close the last, its count the number of ticks; its high and its low bound every price,
  -- and each is the price of one of the ticks.
  pub record IsOhlc (q : Quote) (qs : List Quote) (b : Builder) : Type 0 where
    pub opened : b.open_price ≡ q.price
    pub closed : b.close ≡ last_price q.price qs
    pub counted : b.tick_count ≡ length (q ∷ qs)
    pub above : All (λ t. Le t.price b.high) (q ∷ qs)
    pub reached_high : IsPriceOf b.high (q ∷ qs)
    pub below : All (λ t. Le b.low t.price) (q ∷ qs)
    pub reached_low : IsPriceOf b.low (q ∷ qs)

  new_bar-IsOhlc :
      (r : Resampler) (tf : Timeframe) (bucket : ℕ) (q : Quote) (qs : List Quote)
      → let first = update (open_builder r tf bucket q.price) q.price q.volume in
        IsOhlc q qs (update_all first qs)
  unfolding update open_builder
  new_bar-IsOhlc r tf bucket q qs =
      let first = update (open_builder r tf bucket q.price) q.price q.volume in
      let (o, c, n) = update_all-rest first qs in
      let (above, all_below, top) = update_all-high first qs in
      let (below, all_above, bottom) = update_all-low first qs in
      record {
        opened = o;
        closed = c;
        counted = omega (arith, n);
        above = (Le-trans q.price first.high _ (fmax_left q.price q.price) above, all_below);
        reached_high = ground (arith, top, fmax_either q.price q.price);
        below = (Le-trans _ first.low q.price below (fmin_left q.price q.price), all_above);
        reached_low = ground (arith, bottom, fmin_either q.price q.price);
      }

  visit-opens :
      (tf : Timeframe) (q : Quote) (r : Resampler)
      → is_spent tf (floor_to_bucket q.ts tf) r.last_closed ≡ false
      → lookup tf r.builders ≡ none
      → visit q.price q.volume q.ts tf r ≡ (
        [],
        set_builder tf
            (update (open_builder r tf (floor_to_bucket q.ts tf) q.price) q.price q.volume)
            r,
      )
  unfolding visit
  visit-opens tf q r fresh missing = ground arith

  -- A run of ticks that fall into one bucket, fed to a resampler with no open bar in that
  -- timeframe and whose last closed bucket lies before it, closes nothing and leaves one open
  -- bar, which holds the open, high, low, close and count of exactly those ticks.
  pub visits-IsOhlc :
      (tf : Timeframe) (q : Quote) (qs : List Quote) (r : Resampler)
      → is_spent tf (floor_to_bucket q.ts tf) r.last_closed ≡ false
      → lookup tf r.builders ≡ none
      → All (InBucket tf (floor_to_bucket q.ts tf)) qs
      → ((visits tf (q ∷ qs) r).0 ≡ [])
        × ((b : Builder) × (lookup tf (visits tf (q ∷ qs) r).1.builders ≡ some b) × IsOhlc q qs b)
  unfolding visits set_builder open_builder update
  visits-IsOhlc tf q qs r fresh missing inside =
      let bucket = floor_to_bucket q.ts tf in
      let first = update (open_builder r tf bucket q.price) q.price q.volume in
      let found = lookup-insert_self tf first r.builders in
      let (quiet, held) = visits-InBucket tf first qs (set_builder tf first r) inside fresh found in
      rw (visit-opens tf q r fresh missing)
        (quiet, (update_all first qs, held, new_bar-IsOhlc r tf bucket q qs))
