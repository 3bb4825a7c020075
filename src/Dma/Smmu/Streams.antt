-- ===== src/Dma/Smmu/Streams.antt =====
-- What the stream table says after the calls of vre/dma/smmu.c, and the detection of the hardware.
use hypervisor_base.Common.{
  ℕ, zero, suc, ◌+◌, ◌/◌, ◌%◌, ◌<◌, ◌≡◌, ◌≢◌, Bool, true, false, ◌==◌, if◌then◌else◌, Err, e_ok,
  arith,
}
use hypervisor_base.Dma.Smmu.{
  Smmu, poll_ack, poll_limit, smmu_init, configured, smmu_assign_stream, smmu_remove_stream,
  max_streams,
}

-- bit 0 of word 0
abbrev pub is_bound : Smmu → ℕ → Bool
is_bound s sid = s.words sid 0 % 2 == 1

-- the table that the hardware walks for a stream, and its VMID
abbrev pub table_of : Smmu → ℕ → ℕ
table_of s sid = s.words sid 2

abbrev pub vmid_of : Smmu → ℕ → ℕ
vmid_of s sid = s.words sid 0 / 17592186044416 % 256

-- With hardware present, assigning a stream below 256 to a page-aligned table succeeds, and the
-- stream is then bound to that table under the VMID of `vttbr`.
pub assign_binds :
    (s : Smmu) (sid s2_pgd vttbr : ℕ)
    → s.present ≡ true
    → sid < max_streams
    → s2_pgd ≢ 0
    → s2_pgd % 4096 ≡ 0
    → (◌≡◌ {A = Err} (smmu_assign_stream s sid s2_pgd vttbr).0 e_ok)
      × (is_bound (smmu_assign_stream s sid s2_pgd vttbr).1 sid ≡ true)
      × (table_of (smmu_assign_stream s sid s2_pgd vttbr).1 sid ≡ s2_pgd)
      × (vmid_of (smmu_assign_stream s sid s2_pgd vttbr).1 sid ≡ vttbr / 281474976710656 % 256)
unfolding smmu_assign_stream
assign_binds s sid s2_pgd vttbr hp hs hz ha =
    (ground arith, ground arith, ground arith, ground arith)

-- Assigning or removing a stream changes no word of another stream's entry.
streams_apart :
    (s : Smmu) (sid other w s2_pgd vttbr : ℕ)
    → other ≢ sid
    → ((smmu_assign_stream s sid s2_pgd vttbr).1.words other w ≡ s.words other w)
      × ((smmu_remove_stream s sid).1.words other w ≡ s.words other w)
unfolding smmu_assign_stream smmu_remove_stream
streams_apart s sid other w s2_pgd vttbr h = (ground arith, ground arith)

-- With hardware present, a stream below 256 that is removed is no longer bound, whatever it was
-- assigned to.
remove_unbinds :
    (s : Smmu) (sid s2_pgd vttbr : ℕ)
    → s.present ≡ true
    → sid < max_streams
    → is_bound (smmu_remove_stream (smmu_assign_stream s sid s2_pgd vttbr).1 sid).1 sid ≡ false
unfolding smmu_assign_stream smmu_remove_stream
remove_unbinds s sid s2_pgd vttbr hp hs = ground arith

-- polling hardware that never answers
poll_ack_never :
    (ack : ℕ → Bool) (h : (k : ℕ) → ack k ≡ false) (k n : ℕ) → poll_ack ack k n ≡ 4294967295
unfolding poll_ack
poll_ack_never ack h k zero = ground (arith, h k)
poll_ack_never ack h k (suc n) = ground (arith, h k, poll_ack_never ack h (k + 1) n)

is_nonzero : (base : ℕ) → base ≢ 0 → base == 0 ≡ false
is_nonzero base h = ground arith

-- When `CR0ACK` never sets, because there is no SMMU, `smmu_init` at a base other than 0 reports
-- success and takes the hardware to be present: the timed-out counter has wrapped past 0.
pub smmu_absent_present :
    (ack : ℕ → Bool) (s : Smmu) (base : ℕ)
    → ((k : ℕ) → ack k ≡ false)
    → base ≢ 0
    → (◌≡◌ {A = Err} (smmu_init ack s base).0 e_ok) × ((smmu_init ack s base).1.present ≡ true)
unfolding smmu_init
smmu_absent_present ack s base h hb =
    if_present base (is_nonzero base hb) (poll_ack ack 0 poll_limit) (poll_ack_never ack h 0 _)
  where
    if_present :
        (b : ℕ) (e : b == 0 ≡ false) (t : ℕ) (e' : t ≡ 4294967295)
        → (◌≡◌ {A = Err}
            (if b == 0 then (e_ok, record s { present = false }) else configured t).0
            e_ok)
          × ((if b == 0 then (e_ok, record s { present = false }) else configured t).1.present
              ≡ true)
    if_present b e t e' = (ground arith, ground arith)
