-- ===== src/Armci/Hosts.antt =====
-- src/armci.c: set_armci_hostname and what it calls. What it prints on errors is left out, and the
-- file of the hosts is read before the first look-up.
use netpipe5_dev.Base.{
  ℕ, ◌==◌, ℤ, pos, negsuc, Bool, true, false, Option, none, some, List, [], ◌∷◌, ◌++◌, ◌≡◌, ◌≢◌,
  ◌∙◌, refl, ap, arith,
}
use netpipe5_dev.Effect.{M, ◌>>=◌, ◌>>◌, pure, skip, when, defined}
use netpipe5_dev.Machine.{Machine, call}
use netpipe5_dev.Armci.{ArmciLibrary, Armci}

abbrev pub prepend : ℕ → Option (List ℕ) → Option (List ℕ)
prepend c none = none
prepend c (some cs) = some (c ∷ cs)

-- Every newline becomes the end of the string; none if there is no end in the buffer. The step to the
-- next byte is also made from an end that was just written.
unfoldable pub chop : List ℕ → Option (List ℕ)
chop [] = none
chop (c ∷ cs) = elim (c == 0) [
  | true ↦ some (0 ∷ cs)
  | false ↦ prepend (elim (c == 10) [ true ↦ 0 | false ↦ c ]) (chop cs)
]

-- the bytes of a C string
abbrev pub c_string : List ℕ → List ℕ
c_string [] = []
c_string (c ∷ cs) = elim (c == 0) [ true ↦ [] | false ↦ c ∷ c_string cs ]

-- `is_host_local(buf) == 1`
abbrev pub is_one : ℤ → Bool
is_one (pos n) = n == 1
is_one (negsuc n) = false

module _ {W : Type 0} (lib : ArmciLibrary W) where
  unfoldable pub is_host_local : List ℕ → M (Machine Armci W) ℤ
  is_host_local hostname = do
    found ← call (lib.gethostbyname hostname)
    elim found [
      | none ↦ pure (negsuc 0)
      | some addr ↦ do
        output ← call (lib.ifconfig addr)
        elim output [
          | none ↦ pure (negsuc 0)
          | some false ↦ pure (pos 0)
          | some true ↦ pure (pos 1)
        ]
    ]

  -- A failure is only reported.
  abbrev pub set_hostname : List ℕ → M (Machine Armci W) (Unit {0})
  set_hostname name = do ok ← call (lib.setenv name); skip

  -- The buffers of the lines of the file.
  unfoldable pub set_hostnames : List (List ℕ) → M (Machine Armci W) (Unit {0})
  unfolding chop is_host_local
  set_hostnames [] = skip
  set_hostnames (line ∷ lines) = do
    buf ← defined (chop line)
    local ← is_host_local (c_string buf)
    when (is_one local) (set_hostname (c_string buf))
    set_hostnames lines

  unfoldable pub set_armci_hostname : M (Machine Armci W) (Unit {0})
  unfolding set_hostnames
  set_armci_hostname = do
    hosts ← call (lib.hosts_file)
    elim hosts [ none ↦ skip | some lines ↦ set_hostnames lines ]

-- A line that fgets has read in full loses its newline, and a line with none is left as it is.
abbrev pub NoEnds : List ℕ → Type 0
NoEnds [] = Unit
NoEnds (c ∷ cs) = (c ≢ 0) × (c ≢ 10) × NoEnds cs

eq_zero_ne : (c : ℕ) → c ≢ 0 → (c == 0) ≡ false
eq_zero_ne c h = ground arith

eq_ten_ne : (c : ℕ) → c ≢ 10 → (c == 10) ≡ false
eq_ten_ne c h = ground arith

abbrev chopped : ℕ → List ℕ → Bool → Bool → Option (List ℕ)
chopped c cs over nl = elim over [
  | true ↦ some (0 ∷ cs)
  | false ↦ prepend (elim nl [ true ↦ 0 | false ↦ c ]) (chop cs)
]

chop-line : (cs rest : List ℕ) → NoEnds cs → chop (cs ++ 10 ∷ 0 ∷ rest) ≡ some (cs ++ 0 ∷ 0 ∷ rest)
unfolding chop
chop-line [] rest h = refl
chop-line (c ∷ cs) rest (nz, nt, h) =
    ap (λ (over : Bool). chopped c (cs ++ 10 ∷ 0 ∷ rest) over (c == 10)) (eq_zero_ne c nz)
    ∙ ap (λ (nl : Bool). chopped c (cs ++ 10 ∷ 0 ∷ rest) false nl) (eq_ten_ne c nt)
    ∙ ap (prepend c) (chop-line cs rest h)
