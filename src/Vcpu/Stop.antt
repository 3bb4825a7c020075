-- ===== src/Vcpu/Stop.antt =====
-- What stopping the vCPUs of a VM (core/vcpu/vcpu.c, `vcpu_stop`) does to the pool.
use hypervisor_base.Common.{
  ℕ, ◌<◌, ◌≡◌, refl, ap, List, [], ◌∷◌, ◌⊎◌, length, length-set, get_or-set_self,
}
use hypervisor_base.State.{Core, Vcpu, vcpu_stopped, zero_vcpu, vcpu_at}
use hypervisor_base.Vcpu.{vcpu_stop, stop_all}

pub stop_all-frame :
    (c : Core) (ks : List ℕ) → stop_all c ks ≡ record c { pool = (stop_all c ks).pool }
unfolding stop_all vcpu_stop
stop_all-frame c [] = refl
stop_all-frame c (k ∷ ks) = stop_all-frame (vcpu_stop c k) ks

-- `k` is one of the list.
abbrev pub Among : ℕ → List ℕ → Type 0
Among k [] = ⊥
Among k (j ∷ js) = (j ≡ k) ⊎ Among k js

vcpu_stop-length : (c : Core) (k : ℕ) → length (vcpu_stop c k).pool ≡ length c.pool
unfolding vcpu_stop
vcpu_stop-length c k = length-set c.pool k _

vcpu_stop_self :
    (c : Core) (k : ℕ) → k < length c.pool → (vcpu_at (vcpu_stop c k) k).state ≡ vcpu_stopped
unfolding vcpu_stop
vcpu_stop_self c k h = ap (λ (v : Vcpu). v.state) (get_or-set_self c.pool k _ zero_vcpu h)
