-- ===== src/Engine/Memory/Append.antt =====
-- A new block, taken from the free list, at the end of a level.
use low_level_programming.Shared.{
  ℕ, ◌≡◌, refl, sym, subst, inl, inr, false, none, some, List, [], ◌∷◌, ◌++◌, arith, ◌==◌,
  Bool-cases, update, update_self, ok, All, All-append, ==→eq, ==→ne,
}
use low_level_programming.Allocator.{used, Allocator}
use low_level_programming.Allocator.FreeList
use low_level_programming.Allocator.FreeList.{
  FreeList, FreeList-update, FreeList-frame, not-has_of_used,
}
use low_level_programming.Engine.State.{OrderBlock, OrderList, Heap}
use low_level_programming.Engine.OrderList.{append_list}
use low_level_programming.Engine.OrderList.Chain.{
  Entry, block_of, has, IsLevel, IsLevel-frame, has-append,
}
use low_level_programming.Engine.OrderList.Laws.{append_list-IsLevel}
use low_level_programming.Engine.Memory.{Book, Memory, price_of, not-has_level, not-has_of_free}

-- The first free slot becomes a block at the end of level i.
pub Memory-append :
    {pool : Allocator OrderBlock} {levels : ℕ → OrderList} {book : Book} {fs : List ℕ} (i : ℕ)
    (z : Entry)
    → Memory pool levels book (z.ptr ∷ fs)
    → price_of z ≡ i
    → (m' : Heap) × (list' : OrderList) × (append_list
          (some z.ptr)
          (update pool.slots z.ptr (used (block_of z none none)))
          (levels i)
        ≡ ok (m', list'))
      × Memory
          (record { slots = m'; free_head = FreeList.first fs })
          (update levels i list')
          (update book i (book i ++ z ∷ []))
          fs
Memory-append {pool} {levels} {book} {fs} i z v at_i =
    let m₁ : Heap = update pool.slots z.ptr (used (block_of z none none)) in
    let out : (j : ℕ) → has z.ptr (book j) ≡ false =
      λ j. not-has_of_free v j z.ptr (ground arith) in
    let v₁ : IsLevel m₁ (levels i) (book i) =
      IsLevel-frame pool.slots m₁ (levels i) (book i) (λ q h. ground (arith, out i)) (v.links i) in
    let (m', list', run, v', same) =
      append_list-IsLevel m₁ (levels i) (book i) z none none v₁ (update_self pool.slots z.ptr _)
        (out i) in
    (
      m',
      list',
      run,
      record {
        links = λ j. elim (Bool-cases (i == j)) [
          | inl here ↦ rw here v'
          | inr there ↦ rw there (
              IsLevel-frame pool.slots m' (levels j) (book j)
                (λ q h. ground (
                  arith,
                  out j,
                  has-append q (book i) (z ∷ []),
                  same q,
                  not-has_level v j i q (λ k. ==→ne i j there (sym k)) h,
                ))
                (v.links j))
        ];
        priced = λ j. elim (Bool-cases (i == j)) [
          | inl here ↦ rw here (
              subst (λ k. All (λ x. price_of x ≡ k) (book i ++ z ∷ [])) (==→eq i j here)
                (All-append (λ x. price_of x ≡ i) (book i) (z ∷ []) (v.priced i) (at_i, tt)))
          | inr there ↦ rw there (v.priced j)
        ];
        head = refl;
        unused =
            FreeList-frame pool.slots m' fs
              (λ q h. ground (
                arith,
                has-append q (book i) (z ∷ []),
                same q,
                v.unused.1,
                not-has_of_free v i q (ground arith),
              ))
              v.unused.2;
      },
    )
