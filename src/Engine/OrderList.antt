-- ===== src/Engine/OrderList.antt =====
-- `unlink` and `append_list`, lines 161 to 187 of 4_order_book_proj/src/engine.hpp, on the heap of
-- blocks. To go through the null pointer, or to read a freed block, is a fault.
pub mod Chain
pub mod Laws
use low_level_programming.Shared.{
  ℕ, none, some, is_none, if◌then◌else◌, Outcome, ok, fault, ◌>>=◌, update,
}
use low_level_programming.Allocator.{Pointer, Slot, free, used}
use low_level_programming.Engine.State.{OrderBlock, OrderList, Heap}

unfoldable pub load : Heap → Pointer → Outcome OrderBlock
load m none = fault
load m (some p) = elim (m p) [ used b ↦ ok b | free _ ↦ fault ]

unfoldable pub store : Heap → Pointer → OrderBlock → Outcome Heap
store m none b = fault
store m (some p) b = ok (update m p (used b))

unfoldable pub set_next : Heap → Pointer → Pointer → Outcome Heap
unfolding load store
set_next m p q = do b ← load m p; store m p (record b { next = q })

unfoldable pub set_prev : Heap → Pointer → Pointer → Outcome Heap
unfolding load store
set_prev m p q = do b ← load m p; store m p (record b { prev = q })

-- `if (block->prev) block->prev->next = block->next; else list->head = block->next;`
abbrev pub unlink_prev : OrderBlock → Heap → OrderList → Outcome (Heap × OrderList)
unlink_prev b m list =
    if is_none b.prev
    then ok (m, record list { head = b.next })
    else do m' ← set_next m b.prev b.next; ok (m', list)

-- `if (block->next) block->next->prev = block->prev; else list->tail = block->prev;`
abbrev pub unlink_next : OrderBlock → Heap → OrderList → Outcome (Heap × OrderList)
unlink_next b m list =
    if is_none b.next
    then ok (m, record list { tail = b.prev })
    else do m' ← set_prev m b.next b.prev; ok (m', list)

unfoldable pub unlink : Pointer → Heap → OrderList → Outcome (Heap × OrderList)
unfolding load set_next set_prev
unlink block m list = do
  b ← load m block
  (m₁, list₁) ← unlink_prev b m list
  b₁ ← load m₁ block
  (m₂, list₂) ← unlink_next b₁ m₁ list₁
  m₃ ← set_prev m₂ block none
  m₄ ← set_next m₃ block none
  ok (m₄, list₂)

-- `if (list->tail) list->tail->next = block; else list->head = block;`
abbrev pub append_tail : Pointer → Heap → OrderList → Outcome (Heap × OrderList)
append_tail block m list =
    if is_none list.tail
    then ok (m, record list { head = block })
    else do m' ← set_next m list.tail block; ok (m', list)

unfoldable pub append_list : Pointer → Heap → OrderList → Outcome (Heap × OrderList)
unfolding load set_next set_prev
append_list block m list = do
  m₁ ← set_next m block none
  m₂ ← set_prev m₁ block list.tail
  (m₃, list₁) ← append_tail block m₂ list
  ok (m₃, record list₁ { tail = block })
