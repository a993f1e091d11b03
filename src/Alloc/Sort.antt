-- ===== src/Alloc/Sort.antt =====
-- lab2/2-3.c, lines 172 to 241 and 386 to 402: the four exchange sorts of the free list. Each swaps
-- the contents of two nodes where they are out of order, and leaves the links alone.
pub mod Order
use xjtu_oslab.Base.{ℕ, zero, suc, Bool, List, [], ◌∷◌, ltb, if◌then◌else◌, length}
use xjtu_oslab.Alloc.State.{FreeBlock, Algorithm, first_fit, best_fit, worst_fit}

-- The test of the inner loop, for the contents of nodes `i` and `j`.
unfoldable pub out_of_order : Algorithm → FreeBlock → FreeBlock → Bool
out_of_order first_fit i j = ltb j.start_addr i.start_addr
out_of_order best_fit i j = ltb j.size i.size
out_of_order worst_fit i j = ltb i.size j.size

-- The inner loop: what node `i` holds at its end, and the nodes behind it.
unfoldable pub exchange : Algorithm → FreeBlock → List FreeBlock → FreeBlock × List FreeBlock
exchange alg i [] = (i, [])
exchange alg i (j ∷ js) =
    let swap = out_of_order alg i j in
    let (last, rest) = exchange alg (if swap then j else i) js in
    (last, (if swap then i else j) ∷ rest)

-- The outer loop, for the given number of nodes.
unfoldable pub exchange_sort : Algorithm → ℕ → List FreeBlock → List FreeBlock
exchange_sort alg zero l = l
exchange_sort alg (suc n) [] = []
exchange_sort alg (suc n) (i ∷ js) =
    let (least, rest) = exchange alg i js in least ∷ exchange_sort alg n rest

unfoldable pub rearrange_first_fit : List FreeBlock → List FreeBlock
rearrange_first_fit l = exchange_sort first_fit (length l) l

unfoldable pub rearrange_best_fit : List FreeBlock → List FreeBlock
rearrange_best_fit l = exchange_sort best_fit (length l) l

unfoldable pub rearrange_worst_fit : List FreeBlock → List FreeBlock
rearrange_worst_fit l = exchange_sort worst_fit (length l) l

unfoldable pub memory_sort : List FreeBlock → List FreeBlock
memory_sort l = exchange_sort first_fit (length l) l

unfoldable pub rearrange : Algorithm → List FreeBlock → List FreeBlock
unfolding rearrange_first_fit rearrange_best_fit rearrange_worst_fit
rearrange first_fit l = rearrange_first_fit l
rearrange best_fit l = rearrange_best_fit l
rearrange worst_fit l = rearrange_worst_fit l
