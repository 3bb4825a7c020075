-- ===== src/Pcie/Decode.antt =====
-- The decoder of vre/bus/pcie.h against the addressing scheme of the ECAM.
use hypervisor_base.Common.{ℕ, ◌+◌, ◌*◌, ◌<◌, ◌≡◌, arith}
use hypervisor_base.Pcie.{bus_of, dev_of, fn_of, reg_of}

-- the offset of a register of a function
abbrev pub ecam_offset : ℕ → ℕ → ℕ → ℕ → ℕ
ecam_offset bus dev fn reg = bus * 1048576 + dev * 32768 + fn * 4096 + reg

-- For a bus below 256, a device below 32, a function below 8 and a register below 4096, the decoder
-- applied to their ECAM offset gives back the four numbers.
decode_offset :
    (bus dev fn reg : ℕ)
    → bus < 256
    → dev < 32
    → fn < 8
    → reg < 4096
    → (bus_of (ecam_offset bus dev fn reg) ≡ bus)
      × (dev_of (ecam_offset bus dev fn reg) ≡ dev)
      × (fn_of (ecam_offset bus dev fn reg) ≡ fn)
      × (reg_of (ecam_offset bus dev fn reg) ≡ reg)
decode_offset bus dev fn reg hb hd hf hr = (omega arith, omega arith, omega arith, omega arith)
