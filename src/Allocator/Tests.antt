-- ===== src/Allocator/Tests.antt =====
-- A pool of two slots.
use low_level_programming.Shared.{
  ℕ, ◌<◌, ◌≡◌, refl, arith, none, some, [], ◌∷◌, if◌then◌else◌, ◌==◌, ok,
}
use low_level_programming.Allocator.{free, used, Allocator, allocate, deallocate}
use low_level_programming.Allocator.Pool.{erase, count, IsPool, allocate-IsPool, deallocate-IsPool}

-- slot 1 is free, slot 0 handed out
abbrev half : Allocator ℕ
half = record { slots = λ p. if p == 0 then used 5 else free none; free_head = some 1 }

half-IsPool : IsPool 2 half (1 ∷ []) (0 ∷ [])
half-IsPool = record {
  head = refl;
  links = (refl, refl, tt);
  each_once = λ x. ground arith;
  total = refl;
}

allocate-IsPool_example :
    (a' : Allocator ℕ) × (allocate half ≡ ok (some 1, a'))
    × IsPool 2 a' [] (1 ∷ 0 ∷ [])
    × (1 < 2)
    × (count 1 (0 ∷ []) ≡ 0)
    × (a'.slots ≡ half.slots)
allocate-IsPool_example = allocate-IsPool 2 half 1 [] (0 ∷ []) half-IsPool

deallocate-IsPool_example :
    (a' : Allocator ℕ) × (deallocate half (some 0) ≡ ok a')
    × IsPool 2 a' (0 ∷ 1 ∷ []) (erase 0 (0 ∷ []))
deallocate-IsPool_example = deallocate-IsPool 2 half 0 (1 ∷ []) (0 ∷ []) half-IsPool refl
