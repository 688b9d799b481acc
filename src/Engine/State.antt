-- ===== src/Engine/State.antt =====
-- The data of `Engine`, lines 14 to 62 and 130 to 133 of 4_order_book_proj/src/engine.hpp.
use Prim.Native.Nat.{bit_or}
use low_level_programming.Shared.{
  ℕ, ◌*◌, ◌/◌, ◌^◌, Bool, none, List, [], ltb, if◌then◌else◌, u32, u64, Outcome, ok, fault, ◌>>=◌,
}
use low_level_programming.Allocator
use low_level_programming.Allocator.{Pointer, Slot, free, used, Allocator}
use low_level_programming.Messages.Bytes.{Buffer}

abbrev pub market_price : ℕ
market_price = 0x7FFFFFFF

-- `raw` is the block's own copy of the enter request
pub record OrderBlock : Type 0 where
  pub raw : Buffer
  pub curr_qty : ℕ
  pub id : ℕ
  pub key : ℕ
  pub prev : Pointer
  pub next : Pointer

pub record OrderList : Type 0 where
  pub head : Pointer
  pub tail : Pointer

-- The blocks live in the slots of the pool.
abbrev pub Heap : Type 0
Heap = ℕ → Slot OrderBlock

pub record InboundMessage : Type 0 where
  pub account : ℕ
  pub bytes : Buffer

pub record OutboundMessage : Type 0 where
  pub account : ℕ
  pub bytes : Buffer

-- `outgoing` is what has been enqueued for the writer so far, oldest first, and `clock_reads` the
-- number of calls of `clock_gettime`. `order_blocks_map` and `order_buffer` are functions of the
-- key and of the index; an index from `BUFFER_SIZE` on names no level.
pub record Engine : Type 0 where
  pub counter : ℕ
  pub match_counter : ℕ
  pub order_blocks_map : ℕ → Pointer
  pub buy_orders : ℕ
  pub sell_orders : ℕ
  pub order_buffer : ℕ → OrderList
  pub best_buy_idx : ℕ
  pub best_sell_idx : ℕ
  pub allocator : Allocator OrderBlock
  pub outgoing : List OutboundMessage
  pub clock_reads : ℕ

unfoldable pub order_key : ℕ → ℕ → ℕ
order_key account user_ref_num = bit_or (u64 (account * 2 ^ 32)) user_ref_num

-- `static_cast<uint32_t>(key >> 32)` and `static_cast<uint32_t>(key)`
abbrev pub key_account : ℕ → ℕ
key_account key = u32 (key / 2 ^ 32)

abbrev pub key_ref_num : ℕ → ℕ
key_ref_num key = u32 key

abbrev pub nil_list : OrderList
nil_list = record { head = none; tail = none }

-- The member initialisers, over the pool that the allocator's constructor made.
unfoldable pub start : (buffer_size : ℕ) → Allocator OrderBlock → Engine
start buffer_size pool = record {
  counter = 0;
  match_counter = 0;
  order_blocks_map = λ _. none;
  buy_orders = 0;
  sell_orders = 0;
  order_buffer = λ _. nil_list;
  best_buy_idx = 0;
  best_sell_idx = buffer_size;
  allocator = pool;
  outgoing = [];
  clock_reads = 0;
}

-- `Engine(incoming_queue_in, outgoing_queue_in)`; the queues are the lists of messages.
unfoldable pub new : (mapped : Bool) (buffer_size allocator_size : ℕ) → Outcome Engine
unfolding start
new mapped buffer_size allocator_size = do
  pool ← Allocator.new mapped allocator_size
  ok (start buffer_size pool)

-- `order_buffer[i]`
abbrev pub level : (buffer_size : ℕ) → Engine → ℕ → Outcome OrderList
level buffer_size e i = if ltb i buffer_size then ok (e.order_buffer i) else fault
