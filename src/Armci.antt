-- ===== src/Armci.antt =====
-- src/armci.c: the ARMCI module, on the ARMCI and MPI libraries and the system (a parameter). The
-- linked list of allocations is in Armci.Nodes, the names of the hosts in Armci.Hosts, and the
-- operations of the module in Armci.Transfer.
pub mod Nodes
pub mod Chain
pub mod Refine
pub mod Represents
pub mod Hosts
pub mod Transfer
pub mod Simulation
pub mod Words
use netpipe5_dev.Base.{ℕ, ◌==◌, Bool, true, false, ◌&&◌, Option, List, ℤ}
use netpipe5_dev.Memory.{Ptr, null, at, Heap}

-- `malloc` of a node gives its address, which is not 0, or NULL. ARMCI_Malloc gives the addresses of
-- a block at both processes. What the other process has put is written by `dma`.
pub record ArmciLibrary (W : Type 0) : Type 0 where
  pub malloc_node : W → Option ℕ × W
  pub start_up : W → Unit {0} × W
  pub shut_down : W → Unit {0} × W
  pub shared_malloc : ℕ → Heap → W → (Ptr × Ptr × Heap) × W
  pub shared_free : Ptr → Heap → W → Heap × W
  -- the bytes, where they go at the other process, and that process
  pub put : List ℕ → Ptr → ℕ → W → Unit {0} × W
  pub all_fence : W → Unit {0} × W
  pub mpi_init : W → Unit {0} × W
  -- the error code, which is 0 on success, and the value
  pub comm_size : W → (ℕ × ℕ) × W
  pub comm_rank : W → (ℕ × ℕ) × W
  pub barrier : W → Unit {0} × W
  pub send : List ℕ → ℕ → W → Unit {0} × W
  pub recv : ℕ → ℕ → W → List ℕ × W
  pub dma : Heap → W → Heap × W
  -- "armci_hosts", none if it cannot be opened: what `fgets` leaves in the buffer, line by line
  pub hosts_file : W → Option (List (List ℕ)) × W
  -- the address of a host name
  pub gethostbyname : List ℕ → W → Option (List ℕ) × W
  -- popen of "/sbin/ifconfig | grep <address>": none if it fails, else whether a line came
  pub ifconfig : List ℕ → W → Option Bool × W
  -- setenv of ARMCI_HOSTNAME
  pub setenv : List ℕ → W → Bool × W

-- `struct mnode_t`; the address 0 is NULL.
pub record Mnode : Type 0 where
  pub first_ptr : Ptr
  pub second_ptr : Ptr
  pub nbytes : ℕ
  pub next : ℕ

-- The globals, `ProtocolStruct`, and the nodes by their addresses.
pub record Armci : Type 0 where
  pub npes : ℕ
  pub mype : ℕ
  pub nbor_r_buff_offset : ℕ
  pub m_first : ℕ
  pub nodes : ℕ → Option Mnode
  pub p_time : Ptr
  pub p_nrepeat : Ptr
  pub nbor : ℕ
  pub ipe : ℕ
  pub flag : Ptr

-- `p == q`
abbrev pub ptr_eq : Ptr → Ptr → Bool
ptr_eq null null = true
ptr_eq null (at c j) = false
ptr_eq (at b i) null = false
ptr_eq (at b i) (at c j) = (b == c) && (i == j)
