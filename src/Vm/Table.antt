-- ===== src/Vm/Table.antt =====
-- The VM table of core/vm/vm.c: ids and indices.
use hypervisor_base.Common.{
  get_or-set, ℕ, zero, suc, ◌+◌, ◌-◌, ◌≤◌, ◌<◌, ◌≡◌, ◌∙◌, ap, false, ◌&&◌, List, [], ◌∷◌, none,
  some, arith, leb, if◌then◌else◌, length, get_or, set, take, length-set, get_or-set_self, e_ok,
}
use hypervisor_base.State.{Core, Vm, VmType, zero_vm, vm_at, created}
use hypervisor_base.Stage2.Create.{s2_create_lem}
use hypervisor_base.Vm.{is_none, find_vm, vm_by_id, new_vm, vm_create}

pub record IsTable (vms : List Vm) (n : ℕ) : Type 0 where
  pub entries : length vms ≡ 4
  pub few : n ≤ 4
  pub ids : (i : ℕ) → i < n → (get_or vms i zero_vm).id ≡ i + 1
  pub present : (i : ℕ) → i < n → is_none (get_or vms i zero_vm).state ≡ false

find_vm_lem :
    (id n k : ℕ) (vs : List Vm)
    → n ≤ length vs
    → ((i : ℕ) → i < n → (get_or vs i zero_vm).id ≡ k + i + 1)
    → ((i : ℕ) → i < n → is_none (get_or vs i zero_vm).state ≡ false)
    → find_vm id (take n vs) k ≡ (if leb (k + 1) id && leb id (k + n) then some (id - 1) else none)
unfolding find_vm
find_vm_lem id zero k vs h ids present = ground arith
find_vm_lem id (suc n) k [] h ids present = absurd (omega arith)
find_vm_lem id (suc n) k (v ∷ vs) h ids present = ground (
  arith,
  ids 0 (omega arith),
  present 0 (omega arith),
  find_vm_lem id n (k + 1) vs (omega arith) (λ i hi. ids (suc i) (omega arith) ∙ omega arith)
      (λ i hi. present (suc i) (omega arith)),
)

-- `vm_by_id` finds the VM with a given id exactly when the id is that of a VM of the table, and
-- finds it at the index one below the id.
pub vm_by_id_lem :
    (c : Core) (id : ℕ)
    → IsTable c.vms c.nvm
    → vm_by_id c id ≡ (if leb 1 id && leb id c.nvm then some (id - 1) else none)
unfolding vm_by_id
vm_by_id_lem c id t =
    find_vm_lem id c.nvm 0 c.vms (omega (arith, t.entries, t.few)) (λ i h. t.ids i h ∙ omega arith)
      t.present
    ∙ ap (λ n. if leb 1 id && leb id n then some (id - 1) else none) (omega arith)

-- A new value of an entry that has the id of the old and is in use.
pub set-IsTable :
    (vms : List Vm) (n i : ℕ) (v : Vm)
    → IsTable vms n
    → v.id ≡ (get_or vms i zero_vm).id
    → is_none v.state ≡ false
    → IsTable (set vms i v) n
set-IsTable vms n i v t e s = record {
  entries = length-set vms i v ∙ t.entries;
  few = t.few;
  ids = λ j h. ground (arith, get_or-set vms i j v zero_vm, t.ids j h);
  present = λ j h. ground (arith, get_or-set vms i j v zero_vm, t.present j h);
}

-- While the table and the pool of page tables have room, `vm_create` succeeds, keeps the table
-- well-formed, and the new VM is found under the next id, in state CREATED.
pub vm_create_lem :
    (c : Core) (name : List ℕ) (type : VmType)
    → IsTable c.vms c.nvm
    → c.nvm < 4
    → c.tables.used < 1024
    → (c' : Core) × (vm_create c name type ≡ some (e_ok, some c.nvm, c'))
      × IsTable c'.vms c'.nvm
      × (vm_by_id c' (c.nvm + 1) ≡ some c.nvm)
      × ((vm_at c' c.nvm).state ≡ created)
unfolding vm_create new_vm
vm_create_lem c name type t h1 h2 =
    let (ids, tables, e) = s2_create_lem c.tables h2 in
    let v : Vm = record (new_vm name type c.nvm) { s2_pgd = ids.0; vttbr = ids.1 } in
    let c' : Core = record c { tables = tables; vms = set c.vms c.nvm v; nvm = c.nvm + 1 } in
    let t' : IsTable c'.vms c'.nvm = record {
      entries = length-set c.vms c.nvm v ∙ t.entries;
      few = omega arith;
      ids = λ j h. ground (arith, get_or-set c.vms c.nvm j v zero_vm, t.ids j, t.entries);
      present = λ j h. ground (arith, get_or-set c.vms c.nvm j v zero_vm, t.present j, t.entries);
    } in
    (
      c',
      rw e (ground arith),
      t',
      vm_by_id_lem c' (c.nvm + 1) t' ∙ ground arith,
      ap (λ (w : Vm). w.state) (get_or-set_self c.vms c.nvm v zero_vm (omega (arith, t.entries))),
    )
