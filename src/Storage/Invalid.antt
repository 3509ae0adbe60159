-- ===== src/Storage/Invalid.antt =====
-- internal/storage/postgres.go: `QueryInvalidRecords`, page by page. The numbers are below 2 ^ 63, as
-- the counts of rows are; a page or a limit may be any int.
pub mod Order
pub mod Pages
use gps_data_receiver.Prelude.{
  ℕ, suc, ◌+◌, ◌-◌, ◌*◌, ◌/◌, ◌==◌, List, [], ◌∷◌, Option, none, some, if◌then◌else◌, ltb, length,
  take, drop,
}
use gps_data_receiver.Prelude.Int.{ℤ, pos, negsuc}

-- 0 for what is below it, which the tests below treat alike.
abbrev natural : ℤ → ℕ
natural (pos n) = n
natural (negsuc n) = 0

unfoldable pub page_limit : ℤ → ℕ
page_limit limit = let n = natural limit in if n == 0 then 50 else if ltb 500 n then 500 else n

unfoldable pub first_page : ℤ → ℕ
first_page page = let n = natural page in if ltb n 1 then 1 else n

unfoldable pub max_page : ℕ → ℕ → ℕ
max_page total limit = let pages = (total + limit - 1) / limit in if ltb pages 1 then 1 else pages

unfoldable pub clamped_page : ℤ → ℕ → ℕ → ℕ
unfolding first_page max_page
clamped_page page total limit =
    let last = max_page total limit in if ltb last (first_page page) then last else first_page page

pub record PaginatedInvalidRecords (A : Type 0) : Type 0 where
  pub records : List A
  pub total : ℕ
  pub page : ℕ
  pub limit : ℕ

-- `rows` are the rows that the date filter selects, in the order that the database gives them for this
-- query: the newest first, and those of one time in any order. They are counted and read in one go here.
unfoldable pub query_invalid_records : {A : Type 0} → List A → ℤ → ℤ → PaginatedInvalidRecords A
unfolding page_limit clamped_page
query_invalid_records rows page limit =
    let size = page_limit limit in
    let chosen = clamped_page page (length rows) size in
    record {
      records = take size (drop ((chosen - 1) * size) rows);
      total = length rows;
      page = chosen;
      limit = size;
    }
