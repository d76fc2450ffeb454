-- ===== src/Pvm.antt =====
-- src/pvm.c: the PVM module, on the calls of the PVM library (a parameter).
pub mod Pairs
use netpipe5_dev.Base.{ℕ, ◌==◌, ℤ, pos, negsuc, Bool, true, false, if◌then◌else◌, List, [], ◌∷◌}
use netpipe5_dev.Effect.{M, ◌>>=◌, ◌>>◌, pure, gets, exit, skip, when, truth}
use netpipe5_dev.Machine.{
  Machine, Args, no_other_task, load_bytes, put_bytes, print, call, set_args, set_prot,
}

-- What is packed goes with the next send, and what is unpacked comes from the last message that was
-- received. The data are packed in place, and are sent before anything else is done to them.
pub record PvmLibrary (W : Type 0) : Type 0 where
  pub mytid : W → ℤ × W
  -- the ids of the tasks of the machine
  pub tasks : W → List ℤ × W
  -- pvm_setopt(PvmRoute, PvmRouteDirect)
  pub route_direct : W → Unit {0} × W
  pub initsend : W → Unit {0} × W
  pub pkint : ℤ → W → Unit {0} × W
  pub pkbyte : List ℕ → W → Unit {0} × W
  pub pkdouble : List ℕ → W → Unit {0} × W
  -- the destination and the tag
  pub send : ℤ → ℕ → W → Unit {0} × W
  -- the source, the tag and the buffer id
  pub recv : ℤ → ℤ → W → ℤ × W
  pub upkint : W → ℤ × W
  pub upkbyte : ℕ → W → List ℕ × W
  pub upkdouble : W → List ℕ × W

pub record Pvm : Type 0 where
  pub mytid : ℤ
  pub othertid : ℤ

-- `a == b` on C `int`s
abbrev pub int_eq : ℤ → ℤ → Bool
int_eq (pos a) (pos b) = a == b
int_eq (pos a) (negsuc b) = false
int_eq (negsuc a) (pos b) = false
int_eq (negsuc a) (negsuc b) = a == b

-- The other one of two tasks, or -1.
abbrev pub other_task : ℤ → ℤ → ℤ → ℤ
other_task mine first second =
    if int_eq second mine then first else if int_eq first mine then second else negsuc 0

module _ {W : Type 0} (lib : PvmLibrary W) where
  unfoldable pub pvm_init : M (Machine Pvm W) (Unit {0})
  pvm_init = set_args (λ p. record p { tr = 0; rcv = 1 })

  -- Without another task the message is printed, and the program goes on with -1.
  abbrev pub find_other : ℤ → ℤ → M (Machine Pvm W) (Unit {0})
  find_other first second = do
    set_prot (λ t. record t { othertid = other_task t.mytid first second })
    t ← gets (λ m. m.prot)
    when (int_eq t.othertid (negsuc 0)) (print (no_other_task first second))

  abbrev pub greet : M (Machine Pvm W) (Unit {0})
  greet = do
    t ← gets (λ m. m.prot)
    call (lib.route_direct)
    call (lib.initsend)
    call (lib.pkint t.mytid)
    call (lib.send t.othertid 1)

  abbrev pub among : List ℤ → M (Machine Pvm W) (Unit {0})
  among [] = exit (negsuc 0)
  among (first ∷ []) = exit (negsuc 0)
  among (first ∷ second ∷ []) = find_other first second >> greet
  among (first ∷ second ∷ third ∷ more) = exit (negsuc 0)

  abbrev pub be_found : M (Machine Pvm W) (Unit {0})
  be_found = do
    buffer ← call (lib.recv (negsuc 0) (negsuc 0))
    elim buffer [
      | negsuc n ↦ exit (negsuc 0)
      | pos n ↦ do other ← call (lib.upkint); set_prot (λ t. record t { othertid = other })
    ]

  unfoldable pub pvm_establish : M (Machine Pvm W) (Unit {0})
  pvm_establish = do
    p ← gets (λ m. m.args)
    if truth p.tr then (do ts ← call (lib.tasks); among ts) else be_found

  unfoldable pub pvm_setup : M (Machine Pvm W) (Unit {0})
  unfolding pvm_establish
  pvm_setup = do mine ← call (lib.mytid); set_prot (λ t. record t { mytid = mine }); pvm_establish

  unfoldable pub pvm_prepare_to_receive : M (Machine Pvm W) (Unit {0})
  pvm_prepare_to_receive = skip

  unfoldable pub pvm_sync : M (Machine Pvm W) (Unit {0})
  pvm_sync = skip

  unfoldable pub pvm_send_data : M (Machine Pvm W) (Unit {0})
  pvm_send_data = do
    m ← gets (λ m. m)
    call (lib.initsend)
    bytes ← load_bytes (m.args.s_ptr) (m.args.bufflen)
    call (lib.pkbyte bytes)
    call (lib.send m.prot.othertid 1)

  -- Any message of any task is taken.
  unfoldable pub pvm_recv_data : M (Machine Pvm W) (Unit {0})
  pvm_recv_data = do
    buffer ← call (lib.recv (negsuc 0) (negsuc 0))
    p ← gets (λ m. m.args)
    bytes ← call (lib.upkbyte p.bufflen)
    put_bytes (p.r_ptr) bytes

  -- The time is given by the bytes of the `double`.
  unfoldable pub pvm_send_time : List ℕ → M (Machine Pvm W) (Unit {0})
  pvm_send_time t = do
    prot ← gets (λ m. m.prot)
    call (lib.initsend)
    call (lib.pkdouble t)
    call (lib.send prot.othertid 1)

  unfoldable pub pvm_recv_time : M (Machine Pvm W) (List ℕ)
  pvm_recv_time = do buffer ← call (lib.recv (negsuc 0) (negsuc 0)); call (lib.upkdouble)

  unfoldable pub pvm_send_repeat : ℤ → M (Machine Pvm W) (Unit {0})
  pvm_send_repeat rpt = do
    prot ← gets (λ m. m.prot)
    call (lib.initsend)
    call (lib.pkint rpt)
    call (lib.send prot.othertid 1)

  unfoldable pub pvm_recv_repeat : M (Machine Pvm W) ℤ
  pvm_recv_repeat = do buffer ← call (lib.recv (negsuc 0) (negsuc 0)); call (lib.upkint)

  unfoldable pub pvm_clean_up : M (Machine Pvm W) (Unit {0})
  pvm_clean_up = skip

  unfoldable pub pvm_reset : M (Machine Pvm W) (Unit {0})
  pvm_reset = skip

  unfoldable pub pvm_after_alignment_init : M (Machine Pvm W) (Unit {0})
  pvm_after_alignment_init = skip
