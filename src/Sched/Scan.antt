-- ===== src/Sched/Scan.antt =====
-- core/sched/sched.c: the search of `find_next_rr` and `sched_on_wfi` around the table of slots.
pub mod Order
use hypervisor_base.Common.{ℕ, zero, suc, ◌+◌, ◌%◌, Option, none, some, ◌==◌, if◌then◌else◌}

-- The do-while loop that ends when it is back at `start`: `pick i` is the vCPU that slot `i` offers,
-- `n` is the number of slots. The result has the value of `_cur` too.
pub scan : (ℕ → Option ℕ) → ℕ → ℕ → ℕ → ℕ → Option ℕ × ℕ
scan pick n zero start cur = (none, cur)
scan pick n (suc fuel) start cur =
    let c = (cur + 1) % n in
    let rest = scan pick n fuel start c in
    elim (pick c) [ some k ↦ (some k, c) | none ↦ if c == start then (none, c) else rest ]

-- Once around the table: a start below `n` is met again after `n` rounds.
pub scan_around : (ℕ → Option ℕ) → ℕ → ℕ → Option ℕ × ℕ
unfolding scan
scan_around pick n cur = scan pick n n cur cur
