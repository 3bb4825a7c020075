-- ===== src/Pcie/Access.antt =====
-- Who reaches which PCIe function (vre/bus/pcie.c).
use hypervisor_base.Common.{
  ℕ, ◌+◌, ◌-◌, ◌/◌, ◌%◌, ◌≡◌, ◌⊎◌, inl, inr, Bool-cases, Bool, true, false, ◌&&◌, ◌||◌, List, [],
  ◌∷◌, ◌++◌, Option, none, some, ◌==◌, ltb, leb, if_split, length, Err, e_ok, arith,
}
use hypervisor_base.Pcie.{
  Assignment, Write, Pcie, pcie_assign_vm, pcie_vm_owns_bdf, grants, owns_offset, forward, refuse,
  pcie_ecam_emulate, ecam_base, ecam_size, vendor_invalid,
}

-- Some entry of the table gives the VM the function, or every function.
pub data IsOwner (vm bus dev fn : ℕ) : List Assignment → Type 0 where
  here :
      (a : Assignment) (xs : List Assignment)
      → a.vm_id ≡ vm
      → (a.bus ≡ 255) ⊎ ((a.bus ≡ bus) × (a.dev ≡ dev) × (a.fn ≡ fn))
      → IsOwner vm bus dev fn (a ∷ xs)
  there :
      (a : Assignment) (xs : List Assignment)
      → IsOwner vm bus dev fn xs
      → IsOwner vm bus dev fn (a ∷ xs)

-- The VM owns the function whose registers stand at the offset: eight bits of bus, five of device
-- and three of function above the twelve bits of the register.
abbrev pub OwnsOffset : List Assignment → ℕ → ℕ → Type 0
OwnsOffset xs vm off = IsOwner vm (off / 1048576 % 256) (off / 32768 % 32) (off / 4096 % 8) xs

-- Every write in the trace was made by a VM that owns the function at its offset.
abbrev pub AllOwned : List Assignment → List Write → Type 0
AllOwned xs [] = Unit
AllOwned xs (w ∷ ws) = OwnsOffset xs w.by w.offset × AllOwned xs ws

abbrev pub IsPoliced : Pcie → Type 0
IsPoliced p = AllOwned p.assignments p.written

granted_by :
    (a : Assignment) (vm bus dev fn : ℕ)
    → grants a vm bus dev fn ≡ true
    → (a.vm_id ≡ vm) × ((a.bus ≡ 255) ⊎ ((a.bus ≡ bus) × (a.dev ≡ dev) × (a.fn ≡ fn)))
granted_by a vm bus dev fn h = elim (Bool-cases (a.bus == 255)) [
  | inl e ↦ (ground arith, inl (ground arith))
  | inr e ↦ (ground arith, inr (ground arith, ground arith, ground arith))
]

-- What the search finds is an owner.
owns-IsOwner :
    (xs : List Assignment) (vm bus dev fn : ℕ)
    → pcie_vm_owns_bdf xs vm bus dev fn ≡ true
    → IsOwner vm bus dev fn xs
unfolding pcie_vm_owns_bdf
owns-IsOwner [] vm bus dev fn h = ground arith
owns-IsOwner (a ∷ xs) vm bus dev fn h = elim (Bool-cases (grants a vm bus dev fn)) [
  | inl e ↦ let (p, q) = granted_by a vm bus dev fn e in here a xs p q
  | inr e ↦ there a xs (owns-IsOwner xs vm bus dev fn (ground arith))
]

pub AllOwned-append :
    (xs : List Assignment) (ws : List Write) (w : Write)
    → AllOwned xs ws
    → OwnsOffset xs w.by w.offset
    → AllOwned xs (ws ++ w ∷ [])
AllOwned-append xs [] w h k = (k, tt)
AllOwned-append xs (v ∷ ws) w (h, hs) k = (h, AllOwned-append xs ws w hs k)

-- an entry more
pub owns-append :
    (xs : List Assignment) (a : Assignment) (id bus dev fn : ℕ)
    → pcie_vm_owns_bdf (xs ++ a ∷ []) id bus dev fn
      ≡ pcie_vm_owns_bdf xs id bus dev fn || grants a id bus dev fn
unfolding pcie_vm_owns_bdf
owns-append [] a id bus dev fn = ground arith
owns-append (x ∷ xs) a id bus dev fn = ground (arith, owns-append xs a id bus dev fn)

IsOwner-append :
    (a : Assignment) (vm bus dev fn : ℕ) (xs : List Assignment)
    → IsOwner vm bus dev fn xs
    → IsOwner vm bus dev fn (xs ++ a ∷ [])
IsOwner-append a vm bus dev fn _ (here x xs p q) = here x (xs ++ a ∷ []) p q
IsOwner-append a vm bus dev fn _ (there x xs o) =
    there x (xs ++ a ∷ []) (IsOwner-append a vm bus dev fn xs o)

owner_at : (xs : List Assignment) (vm off : ℕ) → owns_offset xs vm off ≡ true → OwnsOffset xs vm off
owner_at xs vm off h =
    owns-IsOwner xs vm (off / 1048576 % 256) (off / 32768 % 32) (off / 4096 % 8) h

AllOwned-more :
    (xs : List Assignment) (a : Assignment) (ws : List Write)
    → AllOwned xs ws
    → AllOwned (xs ++ a ∷ []) ws
AllOwned-more xs a [] h = tt
AllOwned-more xs a (w ∷ ws) (h, hs) = (
  IsOwner-append a w.by (w.offset / 1048576 % 256) (w.offset / 32768 % 32) (w.offset / 4096 % 8) xs
      h,
  AllOwned-more xs a ws hs,
)

-- An access keeps the trace policed: a write reaches the hardware only when the table has an entry of
-- the VM that runs, for the bus, device and function that the address decodes to or for every one.
pub ecam-IsPoliced :
    (read : ℕ → ℕ) (p : Pcie) (cur_vm addr : ℕ) (is_write : Bool) (val : Option ℕ)
    → IsPoliced p
    → IsPoliced (pcie_ecam_emulate read p cur_vm addr is_write val).1
unfolding pcie_ecam_emulate forward
ecam-IsPoliced read p cur_vm addr is_write val h =
    if_split (λ (r : Option ℕ × Pcie). IsPoliced r.1)
      (ltb addr ecam_base || leb (ecam_base + ecam_size) addr) (λ _. h)
      λ _.
        if_split (λ (r : Option ℕ × Pcie). IsPoliced r.1)
          (owns_offset p.assignments cur_vm (addr - ecam_base)) (go is_write val) λ _. h
  where
    go :
        (b : Bool) (v : Option ℕ)
        → owns_offset p.assignments cur_vm (addr - ecam_base) ≡ true
        → IsPoliced (forward read p cur_vm (addr - ecam_base) b v).1
    go b none k = h
    go true (some v) k =
        AllOwned-append p.assignments p.written _ h
          (owner_at p.assignments cur_vm (addr - ecam_base) k)
    go false (some v) k = h

-- Assigning a function keeps the trace policed.
assign-IsPoliced :
    (p : Pcie) (id bus dev fn : ℕ) → IsPoliced p → IsPoliced (pcie_assign_vm p id bus dev fn).1
unfolding pcie_assign_vm
assign-IsPoliced p id bus dev fn h =
    if_split (λ (r : Err × Pcie). IsPoliced r.1) (leb 64 (length p.assignments)) (λ _. h)
      λ _. AllOwned-more p.assignments _ p.written h

-- An access inside the window to a function that the running VM does not own changes nothing, a
-- read gives 0xffffffff, and a write leaves the value alone.
pub ecam_refused :
    (read : ℕ → ℕ) (p : Pcie) (cur_vm addr v : ℕ)
    → owns_offset p.assignments cur_vm (addr - ecam_base) ≡ false
    → (pcie_ecam_emulate read p cur_vm addr false (some v) ≡ (some vendor_invalid, p))
      × (pcie_ecam_emulate read p cur_vm addr true (some v) ≡ (some v, p))
unfolding pcie_ecam_emulate refuse
ecam_refused read p cur_vm addr v h = (ground arith, ground arith)

-- A successful assignment gives a VM exactly the accesses that it had and those that the new entry
-- grants.
pub assign_grants :
    (p p' : Pcie) (id bus dev fn vm b d f : ℕ)
    → pcie_assign_vm p id bus dev fn ≡ (e_ok, p')
    → pcie_vm_owns_bdf p'.assignments vm b d f
      ≡ pcie_vm_owns_bdf p.assignments vm b d f
        || vm == id && (bus == 255 || bus == b && dev == d && fn == f)
unfolding pcie_assign_vm
assign_grants p p' id bus dev fn vm b d f e = ground (
  arith,
  owns-append p.assignments (record { bus = bus; dev = dev; fn = fn; vm_id = id }) vm b d f,
)
