-- ===== src/Pagination/Walk.antt =====
-- The rows that are shown by pressing Next, on pages of src/qte_bot/pagination.py.
use quant_trading_engine.Pagination.{Page, at_least_one, clamp_offset, next_button, paginate}
use quant_trading_engine.Prelude.{
  Bool-cases, List, Option, [], ap, arith, drop, false, if◌then◌else◌, inl, inr, leb, length, ltb,
  none, refl, some, suc, take, zero, ℕ, ◌++◌, ◌+◌, ◌<◌, ◌∙◌, ◌∷◌, ◌≡◌, ◌≤◌,
}
use quant_trading_engine.Prelude.Int.{pos, ℤ}

module _ {ℓ} {Row : Type ℓ} where
  -- The rows that are shown by pressing Next at most so many times.
  unfoldable pub walk : ℕ → List Row → ℤ → ℕ → List Row
  unfolding paginate next_button
  walk zero rows limit offset = []
  walk (suc n) rows limit offset =
      let (shown, page) = paginate rows limit (pos offset) in
      shown ++ elim (next_button page) [ none ↦ [] | some next ↦ walk n rows limit next ]

  drop-nil : (k : ℕ) → drop {A = Row} k [] ≡ []
  drop-nil zero = refl
  drop-nil (suc k) = refl

  take-drop : (n m k : ℕ) (xs : List Row) → k ≡ m + n → take n (drop m xs) ++ drop k xs ≡ drop m xs
  take-drop zero zero k xs h = rw h refl
  take-drop (suc n) zero zero xs h = absurd (omega arith)
  take-drop (suc n) zero (suc k) [] h = refl
  take-drop (suc n) zero (suc k) (x ∷ xs) h =
      ap (λ ys. x ∷ ys) (take-drop n zero k xs (omega arith))
  take-drop zero (suc m) k [] h = drop-nil k
  take-drop (suc n) (suc m) k [] h = drop-nil k
  take-drop n (suc m) zero (x ∷ xs) h = absurd (omega arith)
  take-drop n (suc m) (suc k) (x ∷ xs) h = take-drop n m k xs (omega arith)

  drop-all : (n : ℕ) (xs : List Row) → length xs ≤ n → drop n xs ≡ []
  drop-all zero [] h = refl
  drop-all (suc n) [] h = refl
  drop-all zero (x ∷ xs) h = absurd (omega arith)
  drop-all (suc n) (x ∷ xs) h = drop-all n xs (omega arith)

  page_at : List Row → ℤ → ℕ → Page
  page_at rows limit offset = record {
    total = length rows;
    limit = at_least_one limit;
    offset = offset;
  }

  paginate-inside :
      (rows : List Row) (limit : ℤ) (offset : ℕ)
      → offset < length rows
      → paginate rows limit (pos offset)
        ≡ (take (at_least_one limit) (drop offset rows), page_at rows limit offset)
  unfolding paginate clamp_offset page_at
  paginate-inside rows limit offset inside =
      let within : leb (length rows) offset ≡ false = ground arith in rw within refl

  next_button-page_at :
      (rows : List Row) (limit : ℤ) (offset : ℕ)
      → next_button (page_at rows limit offset) ≡ (
          let next = offset + at_least_one limit in
          if ltb next (length rows) then some next else none)
  unfolding next_button page_at
  next_button-page_at rows limit offset =
      let positive : leb (at_least_one limit) 0 ≡ false = ground arith in rw positive refl

  then_walk : ℕ → List Row → ℤ → Option ℕ → List Row
  then_walk n rows limit none = []
  then_walk n rows limit (some next) = walk n rows limit next

  walk-step :
      (n : ℕ) (rows : List Row) (limit : ℤ) (offset : ℕ)
      → walk (suc n) rows limit offset ≡ (
          let (shown, page) = paginate rows limit (pos offset) in
          shown ++ then_walk n rows limit (next_button page))
  unfolding walk then_walk
  walk-step n rows limit offset = refl

  walk-drop :
      (n : ℕ) (rows : List Row) (limit : ℤ) (offset : ℕ)
      → offset < length rows
      → length rows ≤ n + offset
      → walk n rows limit offset ≡ drop offset rows
  unfolding then_walk
  walk-drop zero rows limit offset inside enough = absurd (omega arith)
  walk-drop (suc n) rows limit offset inside enough =
      let l = at_least_one limit in
      let next = offset + l in
      let whole_page = take-drop l offset next rows refl in
      walk-step n rows limit offset
      ∙ rw (paginate-inside rows limit offset inside, next_button-page_at rows limit offset)
          (elim (Bool-cases (ltb next (length rows))) [
            | inl more ↦
                rw (more, walk-drop n rows limit next (ground arith) (ground arith)) whole_page
            | inr last ↦ rw last (rw (drop-all next rows (ground arith)) at whole_page)
          ])

  -- With any limit, a listing is shown whole and in order, no row twice, by starting on its first
  -- page and pressing Next until there is no such button; its length bounds the presses.
  pub walk_complete : (rows : List Row) (limit : ℤ) → walk (length rows) rows limit 0 ≡ rows
  walk_complete [] limit = (unfold walk in refl)
  walk_complete (r ∷ rows) limit =
      walk-drop (length (r ∷ rows)) (r ∷ rows) limit 0 (omega arith) (omega arith)
