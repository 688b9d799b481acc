-- ===== src/Engine/Tests/Levels.antt =====
-- A level with one order in slot 0, and a second order in slot 1 that joins it.
use low_level_programming.Shared.{◌≡◌, refl, none, some, [], ◌∷◌, update, ok}
use low_level_programming.Allocator.{free, used}
use low_level_programming.Engine.State.{OrderList, Heap}
use low_level_programming.Engine.OrderList.{unlink, append_list}
use low_level_programming.Engine.OrderList.Chain.{Entry, block_of, IsLevel, SameOutside}
use low_level_programming.Engine.OrderList.Laws.{unlink-IsLevel, append_list-IsLevel}

abbrev older : Entry
older = record { ptr = 0; raw = []; curr_qty = 5; id = 1; key = 7 }

abbrev newer : Entry
newer = record { ptr = 1; raw = []; curr_qty = 2; id = 2; key = 9 }

abbrev one_heap : Heap
one_heap =
    update (update (λ _. free none) 0 (used (block_of older none none))) 1
      (used (block_of newer none none))

abbrev one_list : OrderList
one_list = record { head = some 0; tail = some 0 }

one_list-IsLevel : IsLevel one_heap one_list (older ∷ [])
one_list-IsLevel = record { head = refl; tail = refl; chain = (refl, refl, tt) }

abbrev two_heap : Heap
two_heap =
    update (update (λ _. free none) 0 (used (block_of older none (some 1)))) 1
      (used (block_of newer (some 0) none))

abbrev two_list : OrderList
two_list = record { head = some 0; tail = some 1 }

two_list-IsLevel : IsLevel two_heap two_list (older ∷ newer ∷ [])
two_list-IsLevel = record { head = refl; tail = refl; chain = (refl, refl, (refl, refl, tt)) }

append_list-IsLevel_example :
    (m' : Heap) × (list' : OrderList) × (append_list (some 1) one_heap one_list ≡ ok (m', list'))
    × IsLevel m' list' (older ∷ newer ∷ [])
    × SameOutside (older ∷ newer ∷ []) one_heap m'
append_list-IsLevel_example =
    append_list-IsLevel one_heap one_list (older ∷ []) newer none none one_list-IsLevel refl refl

unlink-IsLevel_example :
    (m' : Heap) × (list' : OrderList) × (unlink (some 0) two_heap two_list ≡ ok (m', list'))
    × IsLevel m' list' (newer ∷ [])
    × SameOutside (older ∷ newer ∷ []) two_heap m'
unlink-IsLevel_example = unlink-IsLevel two_heap two_list [] older (newer ∷ []) two_list-IsLevel
