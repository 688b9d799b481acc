-- ===== src/Engine/Invariant.antt =====
-- The invariant of the engine between two messages.
pub mod Remove
pub mod Leave
pub mod Resize
pub mod Round
pub mod Rounds
pub mod Loops
pub mod Place
pub mod Rested
pub mod Rest
pub mod Insert
pub mod Refresh
pub mod Cancel
pub mod Reach
pub mod Effects
use low_level_programming.Shared.{
  ℕ, ◌+◌, ◌^◌, ◌<◌, ◌≤◌, ◌≡◌, some, none, List, [], All, length, IsU32,
}
use low_level_programming.Allocator.{Pointer, Allocator}
use low_level_programming.Engine.State.{OrderBlock, OrderList, Engine}
use low_level_programming.Engine.OrderList.Chain.{Entry}
use low_level_programming.Engine.Memory.{Book, Memory}
use low_level_programming.Engine.Sides.{IsSides}
use low_level_programming.Engine.Listed.{Listed}

abbrev pub IsOpen : Entry → Type 0
IsOpen x = (0 < x.curr_qty) × IsU32 x.curr_qty

-- The fields that the book consists of; messages and counters are left out.
pub record Core : Type 0 where
  pub allocator : Allocator OrderBlock
  pub order_buffer : ℕ → OrderList
  pub order_blocks_map : ℕ → Pointer
  pub buy_orders : ℕ
  pub sell_orders : ℕ
  pub best_buy_idx : ℕ
  pub best_sell_idx : ℕ

abbrev pub core : Engine → Core
core e = record {
  allocator = e.allocator;
  order_buffer = e.order_buffer;
  order_blocks_map = e.order_blocks_map;
  buy_orders = e.buy_orders;
  sell_orders = e.sell_orders;
  best_buy_idx = e.best_buy_idx;
  best_sell_idx = e.best_sell_idx;
}

-- The state stands for the orders `book`, with the free slots `fs` of a pool of `pool_size`.
pub record IsBook (size pool_size : ℕ) (c : Core) (book : Book) (fs : List ℕ) : Type 0 where
  pub memory : Memory c.allocator c.order_buffer book fs
  pub sides : IsSides size c.buy_orders c.sell_orders c.best_buy_idx c.best_sell_idx book
  pub beyond : (i : ℕ) → size ≤ i → book i ≡ []
  pub open_orders : (i : ℕ) → All IsOpen (book i)
  pub room : length fs + c.buy_orders + c.sell_orders ≡ pool_size
  pub mapped : (k p : ℕ) → c.order_blocks_map k ≡ some p → Listed book k p
  pub size_small : size < 2 ^ 64
  pub pool_small : pool_size < 2 ^ 64

-- A valid state of an engine with `size` price levels and `pool_size` blocks.
pub record IsEngine (size pool_size : ℕ) (e : Engine) : Type 0 where
  pub book : Book
  pub fs : List ℕ
  pub is_book : IsBook size pool_size (core e) book fs
