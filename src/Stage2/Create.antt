-- ===== src/Stage2/Create.antt =====
-- Taking a table from the pool of vre/mmu/stage2.c.
use hypervisor_base.Common.{u8, u64, ℕ, ◌+◌, ◌*◌, ◌<◌, ◌≡◌, refl, some, arith, leb, false}
use hypervisor_base.Stage2.{page_of, PageTables, pt_alloc, s2_create}

pub pt_alloc_lem :
    (t : PageTables)
    → t.used < 1024
    → (p : ℕ) × (t' : PageTables) × (pt_alloc t ≡ some (p, t')) × (t'.used ≡ t.used + 1)
unfolding pt_alloc
pt_alloc_lem t h = let room : (leb 1024 t.used ≡ false) = ground arith in rw room (_, _, refl, refl)

-- While the pool has room, `s2_create` returns.
pub s2_create_lem :
    (t : PageTables)
    → t.used < 1024
    → (r : ℕ × ℕ) × (t' : PageTables) × (s2_create t ≡ some (r, t'))
unfolding s2_create
s2_create_lem t h =
    let (p, t', e, u) = pt_alloc_lem t h in
    (
      (p, u64 (t'.next_vmid * 281474976710656) + page_of p),
      record t' { next_vmid = u8 (t'.next_vmid + 1) },
      rw (e, s2_create),
    )
