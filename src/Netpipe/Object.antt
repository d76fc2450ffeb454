-- ===== src/Netpipe/Object.antt =====
-- src/netpipe.c: the Python object, its creation and its attributes. The argument vector that is
-- handed to Init is left out: no module under src/ that is modelled reads it.
use Prim.Native.String.{String}
use text.Mathlib.Text.{◌==◌}
use netpipe5_dev.Base.{
  ℕ, ltb, pos, Bool, true, false, if◌then◌else◌, Option, none, some, List, ◌++◌, length, take,
  replicate,
}
use netpipe5_dev.Effect.{M, ◌>>◌, pure, modify, when}
use netpipe5_dev.Memory.{null}
use netpipe5_dev.Machine.{Machine, Args, set_args, print, host_too_long}

pub data Created : Type 0 where
  -- NULL, with the error of the parser set
  bad_arguments : Created
  -- PyErr_NoMemory()
  no_memory : Created
  created : Created

-- The `ArgStruct` after memset.
abbrev pub zero_args : Args
zero_args = record {
  cache = 0;
  host = replicate 255 0;
  servicefd = pos 0;
  commfd = pos 0;
  port = 0;
  r_buff = null;
  r_buff_orig = null;
  r_ptr = null;
  r_ptr_saved = null;
  s_buff = null;
  s_buff_orig = null;
  s_ptr = null;
  bufflen = 0;
  upper = 0;
  tr = 0;
  rcv = 0;
  bidir = 0;
  source_node = pos 0;
  preburst = 0;
  reset_conn = 0;
  soffset = 0;
  roffset = 0;
  syncflag = 0;
  use_sdp = 0;
}

-- strncpy of the C library into `n` bytes: a longer text is cut and has no NUL.
abbrev pub strncpy : ℕ → List ℕ → List ℕ
strncpy n text = take n (text ++ replicate n 0)

module _ {P W : Type 0} (zero_prot : P) (init setup : M (Machine P W) (Unit {0})) where
  -- `parsed` is the result of PyArg_ParseTupleAndKeywords with the host, if one is given, and
  -- `allocated` says whether PyObject_New gave an object.
  unfoldable pub netpipe_object : Option (Option (List ℕ)) → Bool → M (Machine P W) Created
  netpipe_object none allocated = pure bad_arguments
  netpipe_object (some host) false = pure no_memory
  netpipe_object (some host) true = do
    modify (λ m. record m {
      args = zero_args;
      prot = zero_prot;
      async_receive = 0;
      bufalign = 0;
      streamopt = 0;
    })
    modify (λ m. record m { bufalign = 16384 })
    elim host [
      | none ↦ modify (λ m. m)
      | some temp ↦ do
        when (ltb 254 (length temp)) (print host_too_long)
        set_args (λ p. record p { host = strncpy 255 temp })
        set_args (λ p. record p { tr = 1 })
    ]
    init
    setup
    pure created

-- The attributes `streamopt` and `tr`; none is the RuntimeError.
unfoldable pub netpipe_get : {P W : Type 0} → String → Machine P W → Option ℕ
netpipe_get op m =
    if op == "streamopt" then some m.streamopt else if op == "tr" then some m.args.tr else none
