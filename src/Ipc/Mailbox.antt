-- ===== src/Ipc/Mailbox.antt =====
-- What a ring of guest/ipc/ipc.c promises: a first-in first-out queue of at most eight packets.
use hypervisor_base.Memory.{Ram, store}
use hypervisor_base.Common.{
  min, take, ℕ, List, [], ◌∷◌, ◌++◌, leb, if◌then◌else◌, length, Err, e_ok, e_busy,
}

pub record Packet : Type 0 where
  pub sender : ℕ
  pub size : ℕ
  pub payload : List ℕ

abbrev pub Mailbox : Type 0
Mailbox = List Packet

unfoldable pub post : Mailbox → Packet → Err × Mailbox
post m p = if leb 8 (length m) then (e_busy, m) else (e_ok, m ++ p ∷ [])

unfoldable pub collect : Mailbox → Mailbox
collect [] = []
collect (p ∷ m) = m

-- What a receiver is given of the oldest packet: how many bytes, and the memory with those bytes
-- of it stored at `a`.
unfoldable pub deliver : Mailbox → ℕ → ℕ → Ram → ℕ × Ram
deliver [] max a ram = (0, ram)
deliver (p ∷ m) max a ram = (min p.size max, store (take (min p.size max) p.payload) a ram)
