-- ===== src/Dma/Smmu.antt =====
-- vre/dma/smmu.c: the stream table of the SMMU. The hardware is a parameter: `ack k` is bit 0 of the
-- k-th read of `CR0ACK`. The other register writes of `smmu_init` leave no trace in the driver.
pub mod Streams
use hypervisor_base.Common.{
  ℕ, zero, suc, ◌+◌, ◌-◌, ◌*◌, ◌/◌, ◌%◌, Bool, true, false, ◌&&◌, ◌||◌, not, ◌==◌, leb,
  if◌then◌else◌, Err, e_ok, e_inval,
}

abbrev pub max_streams : ℕ
max_streams = 256

abbrev pub poll_limit : ℕ
poll_limit = 10000

-- `words sid w` is word `w` of entry `sid` of `_ste_table`
pub record Smmu : Type 0 where
  pub present : Bool  -- _smmu_present
  pub words : ℕ → ℕ → ℕ

-- The value of `timeout` after the polling loop; the decrement is that of u32.
pub poll_ack : (ℕ → Bool) → ℕ → ℕ → ℕ
poll_ack ack k zero = if ack k then 0 else 4294967295
poll_ack ack k (suc n) = let rest = poll_ack ack (k + 1) n in if ack k then suc n else rest

-- the table cleared, with the value that the loop leaves in `timeout`
abbrev pub configured : ℕ → Err × Smmu
configured timeout = (e_ok, record { present = not (timeout == 0); words = λ sid w. 0 })

pub smmu_init : (ℕ → Bool) → Smmu → ℕ → Err × Smmu
smmu_init ack s base =
    if base == 0
    then (e_ok, record s { present = false })
    else configured (poll_ack ack 0 poll_limit)

-- `ste[w] = v` for entry `sid`
abbrev pub write_word : (ℕ → ℕ → ℕ) → ℕ → ℕ → ℕ → ℕ → ℕ → ℕ
write_word words sid w v = λ q j. if q == sid && j == w then v else words q j

-- Word 0 of an entry: valid, stage 2 only, and the VMID at bit 44.
abbrev pub ste_head : ℕ → ℕ
ste_head vttbr = 11 + vttbr / 281474976710656 % 256 * 17592186044416

abbrev pub ste_config : ℕ
ste_config = 0x20418

pub smmu_assign_stream : Smmu → ℕ → ℕ → ℕ → Err × Smmu
smmu_assign_stream s sid s2_pgd vttbr =
    if leb max_streams sid || s2_pgd == 0
    then (e_inval, s)
    else if not s.present
    then (e_ok, s)
    else (
      e_ok,
      record s {
        words =
            write_word
              (write_word (write_word s.words sid 0 (ste_head vttbr)) sid 2
                (s2_pgd - s2_pgd % 4096))
              sid 3 ste_config;
      },
    )

pub smmu_remove_stream : Smmu → ℕ → Err × Smmu
smmu_remove_stream s sid =
    if leb max_streams sid
    then (e_inval, s)
    else if s.present
    then (e_ok, record s { words = write_word s.words sid 0 0 })
    else (e_ok, s)
