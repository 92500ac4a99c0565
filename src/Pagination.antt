-- ===== src/Pagination.antt =====
-- src/qte_bot/pagination.py: pages of a listing and the buttons between them. A button is the
-- offset that it leads to; the keyboard types of the chat library are left out.
pub mod Walk
use quant_trading_engine.Prelude.{
  List, Option, drop, if◌then◌else◌, leb, length, ltb, max, min, none, some, take, ℕ, ◌+◌, ◌-◌,
}
use quant_trading_engine.Prelude.Int.{negsuc, pos, ℤ}

-- `{"total", "limit", "offset"}`
pub record Page : Type 0 where
  pub total : ℕ
  pub limit : ℕ
  pub offset : ℕ

-- `max(0, x)`
abbrev pub at_least_zero : ℤ → ℕ
at_least_zero (pos n) = n
at_least_zero (negsuc n) = 0

abbrev pub at_least_one : ℤ → ℕ
at_least_one x = max 1 (at_least_zero x)

unfoldable pub page_of : ℕ → ℤ → ℤ → Page
page_of total limit offset = record {
  total = total;
  limit = at_least_one limit;
  offset = at_least_zero offset;
}

-- The offset of the page that is shown: the first page's where the one asked for is out of range.
unfoldable pub clamp_offset : ℕ → ℤ → ℕ
clamp_offset total (negsuc n) = 0
clamp_offset total (pos n) = if leb total n then 0 else n

unfoldable pub paginate {ℓ} : {Row : Type ℓ} → List Row → ℤ → ℤ → List Row × Page
unfolding clamp_offset
paginate rows limit offset =
    let first = clamp_offset (length rows) offset in
    (
      take (at_least_one limit) (drop first rows),
      record { total = length rows; limit = at_least_one limit; offset = first },
    )

-- `int(page.get("limit", 0)) or 1`
abbrev pub limit_or_one : Page → ℕ
limit_or_one p = if leb p.limit 0 then 1 else p.limit

-- `pagination_row`: where Prev and Next lead, where there is such a button.
unfoldable pub prev_button : Page → Option ℕ
prev_button p = if ltb 0 p.offset then some (p.offset - limit_or_one p) else none

unfoldable pub next_button : Page → Option ℕ
next_button p =
    if ltb (p.offset + limit_or_one p) p.total then some (p.offset + limit_or_one p) else none

unfoldable pub pagination_row : Page → Option ℕ × Option ℕ
unfolding prev_button next_button
pagination_row p = (prev_button p, next_button p)

-- `page_footer`: the numbers that it prints, of the first and the last row shown and of all rows;
-- `none` is "Nothing to show".
unfoldable pub page_footer : Page → Option (ℕ × ℕ × ℕ)
page_footer p =
    if leb p.total 0
    then none
    else some (p.offset + 1, min (p.offset + limit_or_one p) p.total, p.total)
