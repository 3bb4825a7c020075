-- ===== src/Shmem/Disjoint.antt =====
-- How the regions of the pool of guest/shmem/shmem.c are laid out.
use hypervisor_base.Common.{
  ℕ, ◌+◌, ◌<◌, ◌≤◌, ◌≡◌, refl, Bool, true, false, ◌||◌, not, List, [], ◌∷◌, ◌++◌, Option, none,
  some, ◌==◌, ltb, leb, if_split, length, u64, Err, e_nomem, e_inval, e_notfound, failed, arith,
  subst, get_or, ap, zero, suc, Option-cases, inl, inr,
}
use hypervisor_base.Stage2.{is_aligned, s2_map, s2_unmap}
use hypervisor_base.State.{Core, vm_at}
use hypervisor_base.Vm.{vm_by_id}
use hypervisor_base.Shmem.{
  Shm, Shmem, shmem_map, shmem_unmap, map_both, map_second, unmap_first, pool_pa, pool_sz,
  set_tables, shmem_flags,
}

-- The regions follow one another from `from` on, and end at or below `to`.
abbrev pub InOrder : ℕ → ℕ → List Shm → Type 0
InOrder from to [] = from ≤ to
InOrder from to (r ∷ rs) = (from ≤ r.pa) × InOrder (r.pa + r.sz) to rs

-- The regions are apart, inside the pool, and below the cursor.
abbrev pub IsLaidOut : Shmem → Type 0
IsLaidOut s =
    InOrder pool_pa s.cursor s.regions × (s.cursor ≤ pool_pa + pool_sz) × (length s.regions ≤ 16)

pub InOrder-raise :
    (from to to' : ℕ) (rs : List Shm) → to ≤ to' → InOrder from to rs → InOrder from to' rs
InOrder-raise from to to' [] h p = omega arith
InOrder-raise from to to' (r ∷ rs) h (p, q) = (p, InOrder-raise (r.pa + r.sz) to to' rs h q)

pub InOrder-append :
    (from to : ℕ) (rs : List Shm) (r : Shm)
    → InOrder from r.pa rs
    → r.pa + r.sz ≤ to
    → InOrder from to (rs ++ r ∷ [])
InOrder-append from to [] r p h = (p, h)
InOrder-append from to (q ∷ rs) r (p, ps) h = (p, InOrder-append (q.pa + q.sz) to rs r ps h)

pub length-snoc : (rs : List Shm) (r : Shm) → length (rs ++ r ∷ []) ≡ length rs + 1
length-snoc [] r = refl
length-snoc (q ∷ rs) r = omega (arith, length-snoc rs r)

-- A property of what a call leaves, when it comes back.
abbrev pub Leaves {ℓ} : (Shmem → Type ℓ) → Option (Err × Shmem) → Type ℓ
Leaves P none = Unit
Leaves P (some (e, s)) = P s

-- laid out, with room for the region `r` below the cursor
abbrev pub HasRoom : Shmem → Shm → Type 0
HasRoom s r =
    InOrder pool_pa r.pa s.regions
    × (r.pa + r.sz ≤ s.cursor)
    × (s.cursor ≤ pool_pa + pool_sz)
    × (length s.regions < 16)

room-IsLaidOut : (s : Shmem) (r : Shm) → HasRoom s r → IsLaidOut s
room-IsLaidOut s r (p, q, w, l) =
    (InOrder-raise pool_pa r.pa s.cursor s.regions (omega arith) p, w, omega arith)

map_second-IsLaidOut :
    (s : Shmem) (r : Shm) (i j : ℕ) → HasRoom s r → Leaves IsLaidOut (map_second s r i j)
unfolding map_second
map_second-IsLaidOut s r i j h =
    elim (Option-cases (s2_map s.core.tables (vm_at s.core j).s2_pgd r.ipa r.pa r.sz shmem_flags)) [
      | inl e ↦ rw (e, map_second) tt
      | inr ((x, t), e) ↦
          rw (e, map_second)
            (if_split (Leaves IsLaidOut) (failed x)
              {x = some (x, set_tables s (s2_unmap t (vm_at s.core i).s2_pgd r.ipa r.sz).1)}
              (λ _. room-IsLaidOut s r h)
              λ _. (
                InOrder-append pool_pa s.cursor s.regions r h.0 h.1,
                h.2,
                omega (arith, length-snoc s.regions r, h.3),
              ))
    ]

map_both-IsLaidOut :
    (s : Shmem) (r : Shm) (i j : ℕ) → HasRoom s r → Leaves IsLaidOut (map_both s r i j)
unfolding map_both
map_both-IsLaidOut s r i j h =
    elim (Option-cases (s2_map s.core.tables (vm_at s.core i).s2_pgd r.ipa r.pa r.sz shmem_flags)) [
      | inl e ↦ rw (e, map_both) tt
      | inr ((x, t), e) ↦
          rw (e, map_both)
            (if_split (Leaves IsLaidOut) (failed x) {x = some (x, set_tables s t)}
              (λ _. room-IsLaidOut s r h) λ _. map_second-IsLaidOut (set_tables s t) r i j h)
    ]

lookup-IsLaidOut :
    (s : Shmem) (o : Option ℕ) (k : ℕ → Option (Err × Shmem))
    → IsLaidOut s
    → ((i : ℕ) → Leaves IsLaidOut (k i))
    → Leaves IsLaidOut (elim o [ none ↦ some (e_notfound, s) | some i ↦ k i ])
lookup-IsLaidOut s none k h f = h
lookup-IsLaidOut s (some i) k h f = f i

-- the pages taken from the pool
taken-HasRoom :
    (s : Shmem) (src dst ipa sz : ℕ)
    → IsLaidOut s
    → sz < 9223372036854775808
    → leb 16 (length s.regions) ≡ false
    → ltb (pool_pa + pool_sz) (u64 (s.cursor + sz)) ≡ false
    → HasRoom
        (record s { cursor = u64 (s.cursor + sz) })
        (record { pa = s.cursor; sz = sz; src = src; dst = dst; ipa = ipa; active = true })
taken-HasRoom s src dst ipa sz (p, c, l) z k w = (p, omega arith, ground arith, ground arith)

shmem_map-Leaves :
    (s : Shmem) (src dst ipa sz : ℕ)
    → IsLaidOut s
    → sz < 9223372036854775808
    → Leaves IsLaidOut (shmem_map s src dst ipa sz)
unfolding shmem_map
shmem_map-Leaves s src dst ipa sz h z =
    if_split (Leaves IsLaidOut) (leb 16 (length s.regions)) {x = some (e_nomem, s)} (λ _. h)
      λ k.
        if_split (Leaves IsLaidOut) (not (is_aligned sz)) {x = some (e_inval, s)} (λ _. h)
          λ _.
            if_split (Leaves IsLaidOut) (ltb (pool_pa + pool_sz) (u64 (s.cursor + sz)))
              {x = some (e_nomem, s)} (λ _. h)
              λ w. lookup-IsLaidOut s (vm_by_id s.core src) _ h λ i.
                lookup-IsLaidOut s (vm_by_id s.core dst) _ h λ j.
                  map_both-IsLaidOut (record s { cursor = u64 (s.cursor + sz) })
                    (record {
                      pa = s.cursor;
                      sz = sz;
                      src = src;
                      dst = dst;
                      ipa = ipa;
                      active = true;
                    })
                    i j (taken-HasRoom s src dst ipa sz h z k w)

-- Mapping a region of less than 2^63 bytes keeps the regions laid out, whatever the call returns.
pub shmem_map-IsLaidOut :
    (s s' : Shmem) (src dst ipa sz : ℕ) (e : Err)
    → IsLaidOut s
    → sz < 9223372036854775808
    → shmem_map s src dst ipa sz ≡ some (e, s')
    → IsLaidOut s'
shmem_map-IsLaidOut s s' src dst ipa sz e h z r =
    subst (Leaves IsLaidOut) r (shmem_map-Leaves s src dst ipa sz h z)

abbrev zero_shm : Shm
zero_shm = record { pa = 0; sz = 0; src = 0; dst = 0; ipa = 0; active = false }

InOrder-from :
    (from to j : ℕ) (rs : List Shm)
    → InOrder from to rs
    → j < length rs
    → from ≤ (get_or rs j zero_shm).pa
InOrder-from from to j [] p h = absurd (omega arith)
InOrder-from from to zero (r ∷ rs) (p, ps) h = p
InOrder-from from to (suc j) (r ∷ rs) (p, ps) h =
    omega (arith, InOrder-from (r.pa + r.sz) to j rs ps (omega arith))

InOrder-apart :
    (from to i j : ℕ) (rs : List Shm)
    → InOrder from to rs
    → i < j
    → j < length rs
    → (get_or rs i zero_shm).pa + (get_or rs i zero_shm).sz ≤ (get_or rs j zero_shm).pa
InOrder-apart from to i j [] p k h = absurd (omega arith)
InOrder-apart from to i zero (r ∷ rs) p k h = absurd (omega arith)
InOrder-apart from to zero (suc j) (r ∷ rs) (p, ps) k h =
    InOrder-from (r.pa + r.sz) to j rs ps (omega arith)
InOrder-apart from to (suc i) (suc j) (r ∷ rs) (p, ps) k h =
    InOrder-apart (r.pa + r.sz) to i j rs ps (omega arith) (omega arith)

-- Two different regions of a laid-out pool share no byte: the earlier one ends at or before the
-- start of the later one.
regions_apart :
    (s : Shmem) (i j : ℕ)
    → IsLaidOut s
    → i < j
    → j < length s.regions
    → (get_or s.regions i zero_shm).pa + (get_or s.regions i zero_shm).sz
      ≤ (get_or s.regions j zero_shm).pa
regions_apart s i j h k l = InOrder-apart pool_pa s.cursor i j s.regions h.0 k l

unmap_first-InOrder :
    (c : Core) (rs : List Shm) (from to ipa sz : ℕ)
    → InOrder from to rs
    → InOrder from to (unmap_first c rs ipa sz).1.0
unfolding unmap_first
unmap_first-InOrder c [] from to ipa sz h = h
unmap_first-InOrder c (r ∷ rs) from to ipa sz (p, ps) =
    if_split (λ (x : Bool × (List Shm × Core)). InOrder from to x.1.0)
      (not r.active || not (r.ipa == ipa))
      (λ _. (p, unmap_first-InOrder c rs (r.pa + r.sz) to ipa sz ps)) λ _. (p, ps)

length-unmap_first :
    (c : Core) (rs : List Shm) (ipa sz : ℕ) → length (unmap_first c rs ipa sz).1.0 ≡ length rs
unfolding unmap_first
length-unmap_first c [] ipa sz = refl
length-unmap_first c (r ∷ rs) ipa sz =
    if_split (λ (x : Bool × (List Shm × Core)). length x.1.0 ≡ suc (length rs))
      (not r.active || not (r.ipa == ipa)) (λ _. ap suc (length-unmap_first c rs ipa sz)) λ _. refl

-- Giving a region up keeps the regions laid out.
pub shmem_unmap-IsLaidOut :
    (s : Shmem) (ipa sz : ℕ) → IsLaidOut s → IsLaidOut (shmem_unmap s ipa sz).1
unfolding shmem_unmap
shmem_unmap-IsLaidOut s ipa sz (p, c, l) =
    if_split (λ (r : Err × Shmem). IsLaidOut r.1) (unmap_first s.core s.regions ipa sz).0
      (λ _. (
        unmap_first-InOrder s.core s.regions pool_pa s.cursor ipa sz p,
        c,
        omega (arith, length-unmap_first s.core s.regions ipa sz),
      ))
      λ _. (p, c, l)
