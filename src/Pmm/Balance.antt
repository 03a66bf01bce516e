-- ===== src/Pmm/Balance.antt =====
-- `pmm_get_stats` against the frames that clients hold.
use myria.Base.{ℕ, ◌+◌, ◌-◌, ◌≡◌, List, some, true, arith}
use myria.Pmm.{Pmm, pmm_get_stats}
use myria.Base.{length}
use myria.Pmm.Invariant.{Inv}

-- The frames of the pool, from 2 MB to 1 GB.
abbrev pub pool_pages : ℕ
pool_pages = 261632

-- In a state that satisfies the invariant, the statistics report the whole pool as `total` and
-- the number of frames held by clients as `used`, and `free` and `used` add up to `total`.
pub pmm_get_stats-balance :
    (held : List ℕ) (s : Pmm)
    → Inv held s
    → (f : ℕ) × (pmm_get_stats s true true true
        ≡ record { total = some pool_pages; free = some f; used = some (length held) })
      × (f + length held ≡ pool_pages)
unfolding pmm_get_stats
pmm_get_stats-balance held s v =
    let a = v.accounted in
    let c = v.counted in
    let t = v.total in
    let le = v.next_le in
    let k = v.count_le in (pool_pages - s.allocated_pages, ground arith, omega arith)
