-- ===== src/Irq/Inject.antt =====
-- drivers/gic/gicv3.c, `gic_inject_virq_lr`: a virtual interrupt put into a list register.
pub mod Lists
use hypervisor_base.Common.{
  ℕ, zero, suc, ◌+◌, ◌*◌, ◌/◌, ◌%◌, Bool, true, false, not, List, [], ◌∷◌, Option, none, some, ◌==◌,
  if◌then◌else◌, get_or, set,
}
use hypervisor_base.State.{Core, vcpu_at}
use hypervisor_base.Vse.State.{Machine}
use hypervisor_base.Irq.Vgic.{Dist, CpuIf, vgic_get_priority, vgic_is_enabled, vgic_is_masked}

pub record Gic : Type 0 where
  pub machine : Machine
  pub dists : List Dist  -- the `vgic` of the VMs
  pub cpus : List CpuIf  -- the `vgic_cpu` of the vCPUs of the pool
  pub lrs : List ℕ  -- the list registers, `_num_lrs` of them

abbrev pub zero_dist : Dist
zero_dist = record { priority = []; enable = []; pending = []; initialised = false }

abbrev pub zero_cpu : CpuIf
zero_cpu = record { icc_pmr = 0; icc_bpr0 = 0; icc_grpen1 = 0 }

-- The value of a pending interrupt; the fields are disjoint, so `|` is a sum.
abbrev pub lr_value : ℕ → ℕ → ℕ
lr_value virq prio =
    virq % 4294967296 + prio % 256 * 281474976710656 + 1152921504606846976 + 4611686018427387904

-- INVALID state: bits 63 and 62 are clear
abbrev pub is_free : ℕ → Bool
is_free lr = lr / 4611686018427387904 == 0

-- the loop over the list registers: its result, and whether one was free
pub put_free : List ℕ → ℕ → Bool × List ℕ
put_free [] v = (false, [])
put_free (lr ∷ lrs) v =
    let (done, lrs') = put_free lrs v in if is_free lr then (true, v ∷ lrs) else (done, lr ∷ lrs')

-- "overwrite LR0 as last resort"
pub put_lr : List ℕ → ℕ → List ℕ
unfolding put_free
put_lr lrs v = let (done, lrs') = put_free lrs v in if done then lrs' else set lrs 0 v

unfoldable pub gic_inject_virq_lr : Gic → ℕ → ℕ → Gic
unfolding put_lr
gic_inject_virq_lr g virq prio = elim g.machine.core.current [
  | none ↦ record g { lrs = put_lr g.lrs (lr_value virq prio) }
  | some k ↦ elim (vcpu_at g.machine.core k).vm [
    | none ↦ record g { lrs = put_lr g.lrs (lr_value virq prio) }
    | some i ↦
        if not (vgic_is_enabled (get_or g.dists i zero_dist) virq)
        then g
        else if vgic_is_masked (get_or g.cpus k zero_cpu)
            (vgic_get_priority (get_or g.dists i zero_dist) virq)
        then g
        else record g {
          lrs = put_lr g.lrs (lr_value virq (vgic_get_priority (get_or g.dists i zero_dist) virq));
        }
  ]
]
