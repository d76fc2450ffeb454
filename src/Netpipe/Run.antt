-- ===== src/Netpipe/Run.antt =====
-- src/netpipe.c: netpipe_run_iters and When, over the functions that a protocol module defines.
use netpipe5_dev.Base.{
  ℕ, ℤ, int_of, zero, suc, ◌+◌, ◌/◌, ◌%◌, Option, none, some, ◌||◌, ◌==◌, if◌then◌else◌,
}
use netpipe5_dev.Effect.{M, ◌>>=◌, ◌>>◌, pure, gets, when, truth, skip, defined}
use netpipe5_dev.Memory.{Ptr, null}
use netpipe5_dev.Machine.{Machine, set_args, call}
use netpipe5_dev.Netpipe.Buffers.{is_null, init_buffer_data, check_buffer_data}

-- What a protocol module defines and netpipe.c calls.
pub record Protocol (P W : Type 0) : Type 0 where
  pub sync : M (Machine P W) (Unit {0})
  pub prepare_to_receive : M (Machine P W) (Unit {0})
  pub send_data : M (Machine P W) (Unit {0})
  pub recv_data : M (Machine P W) (Unit {0})
  pub send_repeat : ℕ → M (Machine P W) (Unit {0})
  pub recv_repeat : M (Machine P W) ℕ
  pub after_alignment_init : M (Machine P W) (Unit {0})
  pub my_malloc : ℕ → ℕ → ℕ → M (Machine P W) (Unit {0})
  pub free_buff : Ptr → Ptr → M (Machine P W) (Unit {0})

-- The clock of the system and the arithmetic of `double`.
pub record Clock (D W : Type 0) : Type 0 where
  pub gettimeofday : W → (ℕ × ℕ) × W
  pub of_ℕ : ℕ → D
  -- 1e-6
  pub micro : D
  pub add : D → D → D
  pub sub : D → D → D
  pub mul : D → D → D
  pub div : D → D → D

-- The errors that run_iters leaves set in Python: that of PyArg_ParseTuple and PyErr_NoMemory().
pub data PyError : Type 0 where
  bad_arguments no_memory : PyError

-- What run_iters gives to Python.
pub data Reply (D : Type 0) : Type 0 where
  -- NULL, with an error set
  failed : PyError → Reply D
  -- (size, nrepeat, t1, time), whose first two items are `int`s; the error that is still set beside
  -- it, if there is one
  measured : Option PyError → ℤ → ℤ → D → D → Reply D

-- bits to bytes, rounded up
abbrev pub bytes_of : ℕ → ℕ
bytes_of size = let bytes = size / 8 in if size % 8 == 0 then bytes else bytes + 1

module _ {P W D : Type 0} (clock : Clock D W) (proto : Protocol P W) where
  unfoldable pub when_now : M (Machine P W) D
  when_now = do
    (sec, usec) ← call (clock.gettimeofday)
    pure (clock.add (clock.of_ℕ sec) (clock.mul (clock.of_ℕ usec) (clock.micro)))

  -- One message in each direction; the transmitter sends first.
  abbrev pub round : M (Machine P W) (Unit {0})
  round = do
    tr ← gets (λ m. truth m.args.tr)
    if tr then proto.send_data >> proto.recv_data else proto.recv_data >> proto.send_data

  -- `for (j = 0; j < nrepeat; j++)`, with the rounds left
  unfoldable pub ping_pong : ℕ → M (Machine P W) (Unit {0})
  ping_pong zero = skip
  ping_pong (suc left) = do round; ping_pong left

  -- `args->bufflen` and the buffers, with the pointers into them
  unfoldable pub place_buffers : ℕ → M (Machine P W) (Unit {0})
  place_buffers size = do
    set_args (λ p. record p { bufflen = bytes_of size })
    n ← gets (λ m. m.args.bufflen)
    proto.my_malloc n 0 0
    cache ← gets (λ m. truth m.args.cache)
    when cache (set_args (λ p. record p { s_buff = p.r_buff }))
    set_args (λ p. record p { r_ptr = p.r_buff; r_buff_orig = p.r_buff })
    set_args (λ p. record p { s_ptr = p.s_buff; s_buff_orig = p.s_buff })

  -- From InitBufferData up to the loop.
  unfoldable pub start : ℕ → M (Machine P W) (Unit {0})
  start n = do
    init_buffer_data n 0 0
    proto.after_alignment_init
    async ← gets (λ m. truth m.async_receive)
    when async (proto.prepare_to_receive)
    proto.sync

  -- CheckBufferData and the release of the buffers
  unfoldable pub finish : M (Machine P W) (Unit {0})
  finish = do
    p ← gets (λ m. m.args)
    check_buffer_data p.bufflen 0 0
    if truth p.cache
        then proto.free_buff p.s_buff_orig null
        else proto.free_buff p.s_buff_orig p.r_buff_orig

  -- The reply goes beside an error that is still set, if there is one.
  unfoldable pub exchange : Option PyError → ℕ → ℕ → ℕ → M (Machine P W) (Reply D)
  unfolding ping_pong when_now start finish
  exchange left size nrepeat n = do
    start n
    t0 ← when_now
    ping_pong nrepeat
    now ← when_now
    let t1 = clock.sub now t0
    let time = clock.div t1 (clock.of_ℕ nrepeat)
    finish
    pure (measured left (int_of size) (int_of nrepeat) t1 time)

  -- From the known size on: what both sides do.
  unfoldable pub run_sized : Option PyError → ℕ → ℕ → M (Machine P W) (Reply D)
  unfolding exchange place_buffers
  run_sized left size nrepeat = do
    tr ← gets (λ m. truth m.args.tr)
    when tr (proto.send_repeat size >> proto.send_repeat nrepeat)
    place_buffers size
    p ← gets (λ m. m.args)
    if is_null p.r_buff_orig || is_null p.s_buff_orig
        then pure (failed no_memory)
        else exchange left size nrepeat p.bufflen

  -- The arguments from Python, if they parse. A receiver goes on when they do not, and the error of
  -- the parser stays set. On a size of 0 it calls Py_BuildValue("None"), whose first item, N, takes
  -- an object that is not passed: undefined behaviour.
  unfoldable pub run_iters : Option (ℕ × ℕ) → M (Machine P W) (Reply D)
  unfolding run_sized
  run_iters (some (size, nrepeat)) = run_sized none size nrepeat
  run_iters none = do
    rcv ← gets (λ m. truth m.args.rcv)
    if rcv
        then (do
          size ← proto.recv_repeat
          nrepeat ← proto.recv_repeat
          if size == 0 then defined none else run_sized (some bad_arguments) size nrepeat)
        else pure (failed bad_arguments)
