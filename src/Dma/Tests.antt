-- ===== src/Dma/Tests.antt =====
-- Runs of vre/dma.
use hypervisor_base.Common.{ℕ, ◌/◌, ◌%◌, ◌≡◌, refl, Bool, true, false, Err, e_ok, arith}
use hypervisor_base.Dma.Smmu.{Smmu, smmu_init, smmu_assign_stream}
use hypervisor_base.Dma.Smmu.Streams.{
  is_bound, table_of, vmid_of, assign_binds, smmu_absent_present,
}

abbrev present : Smmu
present = record { present = true; words = λ sid w. 0 }

assign_binds_example :
    (◌≡◌ {A = Err} (smmu_assign_stream present 4 0x101000 0x2000000101000).0 e_ok)
    × (is_bound (smmu_assign_stream present 4 0x101000 0x2000000101000).1 4 ≡ true)
    × (table_of (smmu_assign_stream present 4 0x101000 0x2000000101000).1 4 ≡ 0x101000)
    × (vmid_of (smmu_assign_stream present 4 0x101000 0x2000000101000).1 4
        ≡ 0x2000000101000 / 281474976710656 % 256)
assign_binds_example =
    assign_binds present 4 0x101000 0x2000000101000 refl (omega arith) (omega arith) refl

-- hardware that never answers
abbrev silent : ℕ → Bool
silent k = false

smmu_absent_present_example :
    (◌≡◌ {A = Err} (smmu_init silent present 0x9050000).0 e_ok)
    × ((smmu_init silent present 0x9050000).1.present ≡ true)
smmu_absent_present_example = smmu_absent_present silent present 0x9050000 (λ k. refl) (omega arith)
