-- ===== src/Machine.antt =====
-- The state of a NetPIPE process: the `Netpipe` object with its `ArgStruct` (src/netpipe.h), the
-- globals of src/netpipe.c, the C heap, what was printed, and what the protocol module and the
-- system keep. Flags are C `int`s.
pub mod Laws
use netpipe5_dev.Base.{ℕ, ℤ, List, [], ◌∷◌, ◌+◌, ◌*◌, ◌/◌, ◌%◌, get_or}
use netpipe5_dev.Effect.{M, defined, ◌>>=◌, ◌>>◌, pure, gets, modify}
use netpipe5_dev.Memory
use netpipe5_dev.Memory.{Ptr, Heap}

-- `ArgStruct`: the fields that the code under src/ reads or writes.
pub record Args : Type 0 where
  pub cache : ℕ
  pub host : List ℕ
  pub servicefd : ℤ
  pub commfd : ℤ
  pub port : ℕ
  pub r_buff : Ptr
  pub r_buff_orig : Ptr
  pub r_ptr : Ptr
  pub r_ptr_saved : Ptr
  pub s_buff : Ptr
  pub s_buff_orig : Ptr
  pub s_ptr : Ptr
  pub bufflen : ℕ
  pub upper : ℕ
  pub tr : ℕ
  pub rcv : ℕ
  pub bidir : ℕ
  pub source_node : ℤ
  pub preburst : ℕ
  pub reset_conn : ℕ
  pub soffset : ℕ
  pub roffset : ℕ
  pub syncflag : ℕ
  pub use_sdp : ℕ

-- What the program prints and then goes on.
pub data Message : Type 0 where
  -- "DATA MISMATCH index .. expect .. got .."
  mismatch : ℕ → ℕ → ℕ → Message
  -- "end of file" encountered on reading from socket
  end_of_file : Message
  -- "XXXXX fail: host string too long"
  host_too_long : Message
  -- "Error posting send request"
  send_not_posted : Message
  -- an object of finalizeIB or FreeBuff that was not released
  not_released : Message
  -- "Error, cannot find other (receiving) task" and the two ids
  no_other_task : ℤ → ℤ → Message

-- `P` is the state of the protocol module (its `ProtocolStruct` and its globals), `W` that of the
-- system: sockets, devices, the clock.
pub record Machine (P W : Type 0) : Type 0 where
  pub args : Args
  pub async_receive : ℕ
  pub bufalign : ℕ
  pub streamopt : ℕ
  pub lfsr_data : ℕ
  pub heap : Heap
  pub printed : List Message
  pub prot : P
  pub sys : W

-- uint32_t and its four bytes, the lowest first
abbrev pub le32 : ℕ → List ℕ
le32 w = (w % 256) ∷ (w / 256 % 256) ∷ (w / 65536 % 256) ∷ (w / 16777216 % 256) ∷ []

abbrev pub of_le32 : List ℕ → ℕ
of_le32 bs = get_or bs 0 0 + 256 * get_or bs 1 0 + 65536 * get_or bs 2 0 + 16777216 * get_or bs 3 0

-- uint32_t in network order: htonl, then the bytes in memory
abbrev pub be32 : ℕ → List ℕ
be32 w = (w / 16777216 % 256) ∷ (w / 65536 % 256) ∷ (w / 256 % 256) ∷ (w % 256) ∷ []

abbrev pub of_be32 : List ℕ → ℕ
of_be32 bs = 16777216 * get_or bs 0 0 + 65536 * get_or bs 1 0 + 256 * get_or bs 2 0 + get_or bs 3 0

module _ {P W : Type 0} where
  abbrev pub set_args : (Args → Args) → M (Machine P W) (Unit {0})
  set_args f = modify (λ m. record m { args = f (m.args) })

  abbrev pub set_prot : (P → P) → M (Machine P W) (Unit {0})
  set_prot f = modify (λ m. record m { prot = f (m.prot) })

  abbrev pub print : Message → M (Machine P W) (Unit {0})
  print e = modify (λ m. record m { printed = e ∷ m.printed })

  abbrev pub load_bytes : Ptr → ℕ → M (Machine P W) (List ℕ)
  load_bytes p n = do h ← gets (λ m. m.heap); defined (Memory.load p n h)

  abbrev pub put_bytes : Ptr → List ℕ → M (Machine P W) (Unit {0})
  put_bytes p bs = do
    h ← gets (λ m. m.heap)
    h' ← defined (Memory.store p bs h)
    modify (λ m. record m { heap = h' })

  abbrev pub new_block : ℕ → M (Machine P W) Ptr
  new_block n = do
    h ← gets (λ m. m.heap)
    let (p, h') = Memory.malloc n h
    modify (λ m. record m { heap = h' })
    pure p

  abbrev pub free_ptr : Ptr → M (Machine P W) (Unit {0})
  free_ptr p = do
    h ← gets (λ m. m.heap)
    h' ← defined (Memory.free p h)
    modify (λ m. record m { heap = h' })

  -- A call of the system.
  abbrev pub call {ℓ} : {A : Type ℓ} → (W → A × W) → M (Machine P W) A
  call f = do w ← gets (λ m. m.sys); let (a, w') = f w; modify (λ m. record m { sys = w' }); pure a
