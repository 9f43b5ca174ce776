-- ===== src/Cirq/Pool.antt =====
-- The stack of pre-allocated arrays, `fast_cirq_mempool`, and the search `cirq_scan` of
-- tools/src/include/circular_queue.h. `none` is a call that ends the process.
use qstack.Common.{
  ℕ, zero, suc, ◌+◌, ◌-◌, ◌*◌, ◌≤◌, ◌<◌, ◌≡◌, Option, none, some, List, [], ◌∷◌, ◌==◌,
  if◌then◌else◌, length, get_or, set, get_or-set_self, get_or-set_ne, arith, Ptr, null, refl, ◌∙◌,
  ap, ◌>>=◌,
}

-- `struct fast_cirq_mempool`.
pub record Pool : Type 0 where
  pub free_queues : List Ptr
  pub size : ℕ
  pub point : ℕ
  pub length : ℕ

-- `&tmp[i * length]` for the rounds left, with pointers of eight bytes.
blocks_from : Ptr → ℕ → ℕ → ℕ → List Ptr
blocks_from tmp length i zero = []
blocks_from tmp length i (suc k) = (tmp + i * length * 8) ∷ blocks_from tmp length (i + 1) k

-- `tmp` is what `calloc` returns for the arrays. A pool has at least one queue.
unfoldable pub mempool_init : Ptr → ℕ → ℕ → Pool
unfolding blocks_from
mempool_init tmp size length = record {
  free_queues = blocks_from tmp length 0 size;
  size = size;
  point = size - 1;
  length = length;
}

unfoldable pub mempool_alloc : Pool → Option (Ptr × Pool)
mempool_alloc mp =
    if mp.point == 0
    then none
    else some (get_or mp.free_queues mp.point null, record mp { point = mp.point - 1 })

unfoldable pub mempool_free : Pool → Ptr → Option Pool
mempool_free mp item =
    if mp.point == mp.size - 1
    then none
    else some (record mp { free_queues = set mp.free_queues mp.point item; point = mp.point + 1 })

pub record IsValid (mp : Pool) : Type 0 where
  pub stored : length mp.free_queues ≡ mp.size
  pub point_in : mp.point < mp.size

-- `k` allocations in a row, the last one first.
unfoldable pub allocs : Pool → ℕ → Option (List Ptr × Pool)
allocs mp zero = some ([], mp)
allocs mp (suc k) = elim (allocs mp k) [
  | none ↦ none
  | some (ps, mp') ↦ elim (mempool_alloc mp') [ none ↦ none | some (p, mp'') ↦ some (p ∷ ps, mp'') ]
]

get_or-blocks_from :
    (tmp len i n k : ℕ) → k < n → get_or (blocks_from tmp len i n) k null ≡ tmp + (i + k) * len * 8
unfolding blocks_from
get_or-blocks_from tmp len i zero k h = absurd (omega arith)
get_or-blocks_from tmp len i (suc n) zero h = grind arith
get_or-blocks_from tmp len i (suc n) (suc k) h =
    get_or-blocks_from tmp len (i + 1) n k (omega arith)
    ∙ ap (λ (j : ℕ). tmp + j * len * 8) (omega arith)

length-blocks_from : (tmp len i n : ℕ) → length (blocks_from tmp len i n) ≡ n
unfolding blocks_from
length-blocks_from tmp len i zero = refl
length-blocks_from tmp len i (suc n) = omega (arith, length-blocks_from tmp len (i + 1) n)

-- A pool just made is valid.
pub mempool_init-IsValid : (tmp size len : ℕ) → 0 < size → IsValid (mempool_init tmp size len)
unfolding mempool_init
mempool_init-IsValid tmp size len h = record {
  stored = length-blocks_from tmp len 0 size;
  point_in = omega arith;
}

abbrev descending : Ptr → ℕ → ℕ → ℕ → List Ptr
descending tmp size len zero = []
descending tmp size len (suc k) = (tmp + (size - 1 - k) * len * 8) ∷ descending tmp size len k

-- From a pool just made, any number of allocations below its size succeeds, and they return the
-- blocks one after the other from the last one down.
pub allocs-init :
    (tmp size len k : ℕ)
    → k < size
    → allocs (mempool_init tmp size len) k
      ≡ some
          (descending tmp size len k, record (mempool_init tmp size len) { point = size - 1 - k })
unfolding allocs mempool_init mempool_alloc
allocs-init tmp size len zero h = ground arith
allocs-init tmp size len (suc k) h =
    ground (arith, allocs-init tmp size len k, get_or-blocks_from tmp len 0 size (size - 1 - k))

-- As many allocations as a new pool has blocks, one at least, end the process.
pub allocs-exhausted :
    (tmp size len : ℕ) → 0 < size → allocs (mempool_init tmp size len) size ≡ none
unfolding allocs mempool_init mempool_alloc
allocs-exhausted tmp zero len h = absurd (omega arith)
allocs-exhausted tmp (suc k) len h = ground (arith, allocs-init tmp (suc k) len k)

-- A client that takes an array, gives it back, and takes two more.
pub again : Pool → Option (Ptr × Ptr × Ptr)
again mp = do
  (a, mp1) ← mempool_alloc mp
  mp2 ← mempool_free mp1 a
  (b, mp3) ← mempool_alloc mp2
  (c, _) ← mempool_alloc mp3
  some (a, b, c)

-- From a valid pool with two arrays free, a client that takes an array, gives it back, and takes
-- two more gets the same array all three times.
pub again_shares :
    (mp : Pool)
    → IsValid mp
    → 2 ≤ mp.point
    → let p = get_or mp.free_queues mp.point null in again mp ≡ some (p, p, p)
unfolding again mempool_alloc mempool_free
again_shares mp v h =
    let p = get_or mp.free_queues mp.point null in
    let i = mp.point - 1 in
    ground (
      arith,
      get_or-set_self mp.free_queues i p null,
      get_or-set_ne mp.free_queues i mp.point p null,
    )
