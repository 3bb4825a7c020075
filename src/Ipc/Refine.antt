-- ===== src/Ipc/Refine.antt =====
-- The rings of guest/ipc/ipc.c against the mailbox that each promises to be.
use hypervisor_base.Common.{
  u64, min, some, false, ℕ, zero, suc, ◌+◌, ◌-◌, ◌%◌, ◌≤◌, ◌<◌, ◌≡◌, refl, ap, ap₂, ◌∙◌, sym, List,
  [], ◌∷◌, ◌++◌, arith, ◌==◌, length, get_or, set, take, get_or-set_self, get_or-set_ne,
  take-append, Err, e_ok,
}
use hypervisor_base.Memory.{load-store, Ram, load, store, length-load}
use hypervisor_base.State.{vcpu_at, Core, vm_at}
use hypervisor_base.Ipc.{
  zero_queue, ipc_recv, Queue, Queues, Msg, zero_msg, queue_of, current_id, source_address,
  pa_offset, copy_len, enqueue, dequeue, ipc_send, recv_as,
}
use hypervisor_base.Ipc.Mailbox.{Packet, Mailbox, post, collect, deliver}
use hypervisor_base.Ipc.Invariant.{IsValid, AreValid, ipc_send-AreValid}

-- what a slot holds for its receiver
abbrev pub packet : Msg → Packet
packet m = record { sender = m.src_vm_id; size = m.len; payload = take m.len m.bytes }

-- the `n` slots from number `h` on, going round at eight
abbrev pub window : List Msg → ℕ → ℕ → Mailbox
window slots h zero = []
window slots h (suc n) = packet (get_or slots (h % 8) zero_msg) ∷ window slots (h + 1) n

-- The packets that wait in a ring, oldest first.
abbrev pub contents : Queue → Mailbox
contents q = window q.slots q.head q.count

length-window : (slots : List Msg) (h n : ℕ) → length (window slots h n) ≡ n
length-window slots h zero = refl
length-window slots h (suc n) = ap suc (length-window slots (h + 1) n)

-- The window depends on the number of its first slot modulo the depth only.
window_mod : (slots : List Msg) (h k n : ℕ) → h % 8 ≡ k % 8 → window slots h n ≡ window slots k n
window_mod slots h k zero e = refl
window_mod slots h k (suc n) e =
    ap₂ ◌∷◌ (ap (λ i. packet (get_or slots i zero_msg)) e)
      (window_mod slots (h + 1) (k + 1) n (omega arith))

-- A write of the slot just past a window that leaves room extends it.
window-set :
    (slots : List Msg) (m : Msg) (h n t : ℕ)
    → length slots ≡ 8
    → n < 8
    → t ≡ (h + n) % 8
    → window (set slots t m) h (suc n) ≡ window slots h n ++ packet m ∷ []
window-set slots m h zero t d r e =
    ap (λ x. packet x ∷ [])
      (ap (λ i. get_or (set slots t m) i zero_msg) (omega arith)
        ∙ get_or-set_self slots t m zero_msg (omega arith))
window-set slots m h (suc n) t d r e =
    ap₂ ◌∷◌ (ap packet (get_or-set_ne slots t (h % 8) m zero_msg (omega arith)))
      (window-set slots m (h + 1) n t d (omega arith) (omega arith))

-- Filling a slot posts the packet.
contents-enqueue :
    (q : Queue) (src : ℕ) (sent : List ℕ)
    → IsValid q
    → q.count < 8
    → contents (enqueue q src sent)
      ≡ contents q ++ record { sender = src; size = length sent; payload = sent } ∷ []
unfolding enqueue
contents-enqueue q src sent v h =
    ap (window _ q.head) {y = suc q.count} (omega arith)
    ∙ window-set q.slots _ q.head q.count q.tail v.depth h v.tail_at
    ∙ ap (λ p. contents q ++ record { sender = src; size = length sent; payload = p } ∷ [])
        (take-append (length sent) sent _ refl)

contents-dequeue :
    (q : Queue) (n : ℕ) → q.count ≡ suc n → contents (dequeue q) ≡ window q.slots (q.head + 1) n
unfolding dequeue
contents-dequeue q n e =
    ap (window q.slots ((q.head + 1) % 4294967296 % 8)) (omega arith)
    ∙ window_mod q.slots _ (q.head + 1) n (omega arith)

-- A send to a VM of the table, of a length that the ring takes, is a post to that VM's mailbox of
-- the bytes at the sender's buffer: it answers busy exactly when eight packets wait, and otherwise
-- appends the packet.
pub ipc_send_refines :
    (c : Core) (qs : Queues) (dst buf len : ℕ)
    → AreValid qs
    → 1 ≤ dst
    → dst ≤ 4
    → 1 ≤ len
    → len ≤ 256
    → let (e, qs') = ipc_send c qs dst buf len in
      (e, contents (queue_of qs' dst))
      ≡ post (contents (queue_of qs dst)) (record {
        sender = current_id c;
        size = len;
        payload = load len (source_address c buf) c.ram;
      })
unfolding ipc_send post
ipc_send_refines c qs dst buf len v h1 h2 h3 h4 =
    let q : Queue = queue_of qs dst in
    let sent : List ℕ = load len (source_address c buf) c.ram in
    ground (
      arith,
      length-window q.slots q.head q.count,
      contents-enqueue q (current_id c) sent (v.each dst),
      get_or-set_self qs (dst - 1) (enqueue q (current_id c) sent) zero_queue,
      v.many,
      length-load len (source_address c buf) c.ram,
    )

take-take : (n m : ℕ) (xs : List ℕ) → n ≤ m → take n (take m xs) ≡ take n xs
take-take zero m xs h = refl
take-take (suc n) zero xs h = elim h [ ]
take-take (suc n) (suc m) [] h = refl
take-take (suc n) (suc m) (x ∷ xs) h = ap (◌∷◌ x) (take-take n m xs (omega arith))

-- The address that `ipc_recv` writes to for the VM at index `i`.
abbrev pub target_address : Core → ℕ → ℕ → ℕ
target_address c i buf = u64 (buf + pa_offset (vm_at c i))

contents-suc :
    (q : Queue) (n : ℕ)
    → q.head < 8
    → q.count ≡ suc n
    → contents q ≡ packet (get_or q.slots q.head zero_msg) ∷ window q.slots (q.head + 1) n
contents-suc q n h e =
    ap (window q.slots q.head) e
    ∙ ap (λ k. packet (get_or q.slots k zero_msg) ∷ window q.slots (q.head + 1) n) {x = q.head % 8}
        {y = q.head} (omega arith)

-- What the receiver gets of the message at the head is what the mailbox delivers of its packet.
deliver-packet :
    (m : Msg) (rest : Mailbox) (max a : ℕ) (ram : Ram)
    → (copy_len m.len max, store (take (copy_len m.len max) m.bytes) a ram)
      ≡ deliver (packet m ∷ rest) max a ram
unfolding deliver
deliver-packet m rest max a ram =
    let e : (copy_len m.len max ≡ min m.len max) = ground arith in
    rw (e, take-take (min m.len max) m.len m.bytes (omega arith))

abbrev Received : Core → Queues → ℕ → ℕ → ℕ → Err × ℕ × Queues × Ram → Type 0
Received c qs i buf max (e, n, qs', ram) =
    (e ≡ e_ok)
    × (contents (queue_of qs' (vm_at c i).id) ≡ collect (contents (queue_of qs (vm_at c i).id)))
    × ((n, ram)
        ≡ deliver (contents (queue_of qs (vm_at c i).id)) max (target_address c i buf) c.ram)

recv_as_refines :
    (c : Core) (qs : Queues) (i buf max : ℕ)
    → AreValid qs
    → 1 ≤ (vm_at c i).id
    → (vm_at c i).id ≤ 4
    → (n : ℕ) → (queue_of qs (vm_at c i).id).count ≡ n
    → Received c qs i buf max (recv_as c qs i buf max)
unfolding recv_as collect deliver
recv_as_refines c qs i buf max v h1 h2 zero e =
    let none_left : (contents (queue_of qs (vm_at c i).id) ≡ []) = ap (window _ _) e in
    rw (e, none_left) (refl, refl, refl)
recv_as_refines c qs i buf max v h1 h2 (suc n) e =
    let q : Queue = queue_of qs (vm_at c i).id in
    let test : ((q.count == 0) ≡ false) = ground arith in
    let holds = contents-suc q n (v.each (vm_at c i).id).head_in e in
    let stored =
      get_or-set_self qs ((vm_at c i).id - 1) (dequeue q) zero_queue (omega (arith, v.many)) in
    rw test (
      refl,
      ap contents stored ∙ contents-dequeue q n e ∙ sym (ap collect holds),
      deliver-packet (get_or q.slots q.head zero_msg) (window q.slots (q.head + 1) n) max _ c.ram
          ∙ sym (ap (λ m. deliver m max (target_address c i buf) c.ram) holds),
    )

-- A receive by a VM of the table never fails: it takes the oldest packet off that VM's mailbox,
-- and stores as much of it as fits at the receiver's buffer; from an empty mailbox it returns
-- length 0 and writes nothing.
pub ipc_recv_refines :
    (c : Core) (qs : Queues) (k i buf max : ℕ)
    → AreValid qs
    → c.current ≡ some k
    → (vcpu_at c k).vm ≡ some i
    → 1 ≤ (vm_at c i).id
    → (vm_at c i).id ≤ 4
    → let (e, n, qs', ram) = ipc_recv c qs buf max in
      (e ≡ e_ok)
      × (contents (queue_of qs' (vm_at c i).id) ≡ collect (contents (queue_of qs (vm_at c i).id)))
      × ((n, ram)
          ≡ deliver (contents (queue_of qs (vm_at c i).id)) max (target_address c i buf) c.ram)
unfolding ipc_recv
ipc_recv_refines c qs k i buf max v e1 e2 h1 h2 =
    rw (e1, e2, ipc_recv) (recv_as_refines c qs i buf max v h1 h2 _ refl)

take_all : (n : ℕ) (xs : List ℕ) → length xs ≤ n → take n xs ≡ xs
take_all zero [] h = refl
take_all zero (x ∷ xs) h = absurd (omega arith)
take_all (suc n) [] h = refl
take_all (suc n) (x ∷ xs) h = ap (◌∷◌ x) (take_all n xs (omega arith))

load-store-take :
    (len m a : ℕ) (ram : Ram) (xs : List ℕ)
    → length xs ≡ len
    → len ≤ m
    → load len a (store (take m xs) a ram) ≡ xs
load-store-take len m a ram xs e h = rw (take_all m xs (omega arith), ← e) (load-store xs a ram)

-- A message sent to a VM whose mailbox is empty arrives: when that VM next receives, into a buffer
-- that is long enough, it gets the length and the bytes that stood at the sender's buffer.
pub ipc_roundtrip :
    (c c' : Core) (qs : Queues) (dst buf len k i buf' max : ℕ)
    → AreValid qs
    → (queue_of qs dst).count ≡ 0
    → 1 ≤ dst
    → dst ≤ 4
    → 1 ≤ len
    → len ≤ 256
    → len ≤ max
    → c'.current ≡ some k
    → (vcpu_at c' k).vm ≡ some i
    → (vm_at c' i).id ≡ dst
    → let (e, qs') = ipc_send c qs dst buf len in
      let (e', n, _, ram) = ipc_recv c' qs' buf' max in
      (e ≡ e_ok)
      × (e' ≡ e_ok)
      × (n ≡ len)
      × (load len (target_address c' i buf') ram ≡ load len (source_address c buf) c.ram)
unfolding post deliver
ipc_roundtrip c c' qs dst buf len k i buf' max v empty h1 h2 h3 h4 h5 e1 e2 e3 = (
  ap (λ r. r.0) sent,
  got.0,
  ap (λ r. r.0) given ∙ omega arith,
  ap (λ r. load len (target_address c' i buf') r.1) given
      ∙ load-store-take len (min len max) (target_address c' i buf') c'.ram p.payload
          (length-load len (source_address c buf) c.ram) (omega arith),
)
  where
    p : Packet
    p = record {
      sender = current_id c;
      size = len;
      payload = load len (source_address c buf) c.ram;
    }

    qs' : Queues
    qs' = (ipc_send c qs dst buf len).1

    no_mail : contents (queue_of qs dst) ≡ []
    no_mail = ap (window (queue_of qs dst).slots (queue_of qs dst).head) empty

    sent :
        ◌≡◌ {A = Err × Mailbox}
          ((ipc_send c qs dst buf len).0, contents (queue_of qs' dst))
          (e_ok, p ∷ [])
    sent = ipc_send_refines c qs dst buf len v h1 h2 h3 h4 ∙ ap (λ m. post m p) no_mail

    mail : contents (queue_of qs' (vm_at c' i).id) ≡ p ∷ []
    mail = ap (λ d. contents (queue_of qs' d)) e3 ∙ ap (λ r. r.1) sent

    got : Received c' qs' i buf' max (ipc_recv c' qs' buf' max)
    got =
        ipc_recv_refines c' qs' k i buf' max (ipc_send-AreValid c qs dst buf len v) e1 e2
          (omega arith) (omega arith)

    given :
        ◌≡◌ {A = ℕ × Ram}
          ((ipc_recv c' qs' buf' max).1, (ipc_recv c' qs' buf' max).3)
          (deliver (p ∷ []) max (target_address c' i buf') c'.ram)
    given = got.2 ∙ ap (λ m. deliver m max (target_address c' i buf') c'.ram) mail
