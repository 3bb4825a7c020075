-- ===== src/Vse/Only.antt =====
-- What a step of the security engine leaves alone: the trust records and the backup descriptors of
-- the other VMs.
use hypervisor_base.Common.{ℕ, ◌≡◌, ◌≢◌, refl, ◌∙◌, Option, none, some, Err, length}
use hypervisor_base.Vse.State.{Machine}
use hypervisor_base.Vse.Level.{record_at}
use hypervisor_base.Vse.Failover.{backup_at}

-- From `m` to `m'` only the records of the VM at `ix` may change.
pub record OnlyAt (ix : ℕ) (m m' : Machine) : Type 0 where
  pub initialized : m'.trust.initialized ≡ m.trust.initialized
  pub records : length m'.trust.per_vm ≡ length m.trust.per_vm
  pub trust : (j : ℕ) → j ≢ ix → record_at m' j ≡ record_at m j
  pub backups : (j : ℕ) → j ≢ ix → backup_at m' j ≡ backup_at m j

pub OnlyAt-refl : (ix : ℕ) (m : Machine) → OnlyAt ix m m
OnlyAt-refl ix m = record {
  initialized = refl;
  records = refl;
  trust = λ j h. refl;
  backups = λ j h. refl;
}

pub OnlyAt-trans :
    (ix : ℕ) (m m' m'' : Machine) → OnlyAt ix m m' → OnlyAt ix m' m'' → OnlyAt ix m m''
OnlyAt-trans ix m m' m'' p q = record {
  initialized = q.initialized ∙ p.initialized;
  records = q.records ∙ p.records;
  trust = λ j h. q.trust j h ∙ p.trust j h;
  backups = λ j h. q.backups j h ∙ p.backups j h;
}

-- A property of the machine that a call leaves, when it comes back.
abbrev pub Leaves {ℓ} : (Machine → Type ℓ) → Option (Err × Machine) → Type ℓ
Leaves P none = Unit
Leaves P (some (e, m)) = P m
