-- ===== src/Engine/Sides.antt =====
-- How many orders of each side rest, and where the best of each side is.
pub mod Count
pub mod Scan
pub mod Rescan
pub mod Change
pub mod Add
pub mod Stay
use low_level_programming.Shared.{ℕ, suc, ◌<◌, ◌≤◌, ◌≡◌}
use low_level_programming.Engine.Memory.{Book}
use Count.{buys, sells, total}

-- The counters, and the two best indices. Every level below `best_sell` holds no sell order and
-- every level above `best_buy` no buy order, so no bid reaches an ask.
pub record IsSides (size bo so best_buy best_sell : ℕ) (book : Book) : Type 0 where
  pub buy_count : bo ≡ total buys size book
  pub sell_count : so ≡ total sells size book
  pub buy_top : (i : ℕ) → best_buy < i → i < size → buys (book i) ≡ 0
  pub sell_top : (i : ℕ) → i < best_sell → sells (book i) ≡ 0
  pub buy_best : 0 < bo → 0 < buys (book best_buy)
  pub sell_best : 0 < so → 0 < sells (book best_sell)
  pub no_buy : bo ≡ 0 → best_buy ≡ 0
  pub no_sell : so ≡ 0 → best_sell ≡ size
  pub sell_in : 0 < so → best_sell < size
  pub buy_in : best_buy < size
  pub uncrossed : 0 < bo → 0 < so → best_buy < best_sell
