-- ===== src/Ibv/Events/Counted.antt =====
-- EventThread and event_handler: no completion is lost and none is signalled twice.
use netpipe5_dev.Base.{
  arith, ℕ, ◌+◌, ◌==◌, ◌≡◌, refl, sym, ◌∙◌, ap, subst, ◌≤◌, ==_iff, negsuc, ℤ, Bool, true, false,
  Option, none, some,
}
use netpipe5_dev.Effect.{M, Outcome, done, exited, and_then, gets, exit, skip, defined, ◌>>=◌, ◌>>◌}
use netpipe5_dev.Memory.{Heap}
use netpipe5_dev.Machine.{Machine, call, set_prot}
use netpipe5_dev.Verbs.{Verbs, Poll, empty, broken, completed, CqEvent, pending, no_event, event}
use netpipe5_dev.Ibv.{Ibv, ThreadAt, waits, polls, holds, ended}
use netpipe5_dev.Ibv.Events.{thread_to, raise_flag, poll_step, thread_step, event_step}

-- The completions that one poll gives.
abbrev pub one_of : Poll → ℕ
one_of empty = 0
one_of broken = 0
one_of (completed good) = 1

-- `taken` counts the completions that polls have given; nothing else takes one.
pub record Counter {W : Type 0} (verbs : Verbs W) : Type 0 where
  pub taken : W → ℕ
  pub poll_law :
      (cq : ℕ) (w : W) → taken (verbs.poll_cq cq w).1 ≡ taken w + one_of (verbs.poll_cq cq w).0
  pub dma_quiet : (h : Heap) (w : W) → taken (verbs.dma h w).1 ≡ taken w
  pub notify_quiet : (cq : ℕ) (w : W) → taken (verbs.req_notify_cq cq w).1 ≡ taken w
  pub event_quiet : (channel : ℕ) (w : W) → taken (verbs.get_cq_event channel w).1 ≡ taken w

-- The completions that the thread has in hand.
abbrev pub in_hand : Option ThreadAt → ℕ
in_hand none = 0
in_hand (some waits) = 0
in_hand (some (polls cq)) = 0
in_hand (some (holds cq)) = 1
in_hand (some ended) = 0

-- A run that returns in `P`, or ends the process: it meets no undefined behaviour and no endless wait.
pub data Stays {S A : Type 0} (P : S → Type 0) : Outcome S A → Type 0 where
  returns : (a : A) (s : S) → P s → Stays P (done a s)
  ends : (c : ℤ) (s : S) → Stays P (exited c s)

flag_down : (f : ℕ) → f ≤ 1 → (f == 1) ≡ false → f ≡ 0
flag_down f le e = ground arith

module _ {W : Type 0} {verbs : Verbs W} (c : Counter verbs) where
  -- Of the completions taken so far the program has consumed `n`; the flag stands for one more, and
  -- the thread holds the last. The receive queue is there.
  pub record Counted (n : ℕ) (m : Machine Ibv W) : Type 0 where
    pub queue : ℕ
    pub queue_is : m.prot.r_cq_hndl ≡ some queue
    pub flag_le : m.prot.receive_complete ≤ 1
    pub sum_is : c.taken m.sys ≡ n + m.prot.receive_complete + in_hand m.prot.event_thread

  -- The thread is at a place where it has nothing in hand, the system has moved on and nothing was taken.
  Counted-moved :
      (n : ℕ) (at : ThreadAt) (m : Machine Ibv W) (w : W)
      → in_hand (some at) ≡ in_hand m.prot.event_thread
      → c.taken w ≡ c.taken m.sys
      → Counted n m
      → Counted n (record m { sys = w; prot = record (m.prot) { event_thread = some at } })
  Counted-moved n at m w free e k = record {
    queue = k.queue;
    queue_is = k.queue_is;
    flag_le = k.flag_le;
    sum_is = e ∙ k.sum_is ∙ ap (λ (h : ℕ). n + m.prot.receive_complete + h) (sym free);
  }

  -- A step that goes on.
  abbrev Goes : ℕ → Outcome (Machine Ibv W) (Unit {0}) → Type 0
  Goes n r = Stays (Counted n) r

  waits_step :
      (n : ℕ) (m : Machine Ibv W)
      → m.prot.event_thread ≡ some waits
      → Counted n m
      → Goes n (thread_step verbs waits m)
  waits_step n m at k = go (verbs.get_cq_event 0 m.sys).0
    where
      w₁ : W
      w₁ = (verbs.get_cq_event 0 m.sys).1

      run : CqEvent → M (Machine Ibv W) (Unit {0})
      run e = elim e [
        | pending ↦ skip
        | no_event ↦ thread_to ended
        | event cq ↦ thread_to (polls cq)
      ]

      go : (e : CqEvent) → Goes n (run e (record m { sys = w₁ }))
      go pending = returns tt _ (record {
        queue = k.queue;
        queue_is = k.queue_is;
        flag_le = k.flag_le;
        sum_is = c.event_quiet 0 m.sys ∙ k.sum_is;
      })
      go no_event =
          returns tt _ (Counted-moved n ended m w₁ (ap in_hand (sym at)) (c.event_quiet 0 m.sys) k)
      go (event cq) =
          returns tt _
            (Counted-moved n (polls cq) m w₁ (ap in_hand (sym at)) (c.event_quiet 0 m.sys) k)

  -- What follows a completion without an error.
  abbrev signal : ℕ → M (Machine Ibv W) (Unit {0})
  signal cq = do
    t ← gets (λ m. m.prot)
    elim (t.receive_complete == 1) [ true ↦ thread_to (holds cq) | false ↦ raise_flag cq ]

  -- A completion that is taken while the flag is up is held, and otherwise raises the flag.
  good_step :
      (n cq : ℕ) (m : Machine Ibv W)
      → Counted n (record m { prot = record (m.prot) { event_thread = some (holds cq) } })
      → Goes n (signal cq m)
  good_step n cq m k = go (m.prot.receive_complete == 1) refl
    where
      run : Bool → M (Machine Ibv W) (Unit {0})
      run up = elim up [ true ↦ thread_to (holds cq) | false ↦ raise_flag cq ]

      down : (m.prot.receive_complete == 1) ≡ false → m.prot.receive_complete ≡ 0
      down e = flag_down m.prot.receive_complete (k.flag_le) e

      go : (up : Bool) → (m.prot.receive_complete == 1) ≡ up → Goes n (run up m)
      go true e = returns tt _ k
      go false e = returns tt _ (record {
        queue = k.queue;
        queue_is = k.queue_is;
        flag_le = omega arith;
        sum_is = k.sum_is ∙ moved (down e);
      })
        where
          moved : m.prot.receive_complete ≡ 0 → n + m.prot.receive_complete + 1 ≡ n + 1 + 0
          moved z = omega (arith, z)

  polls_step :
      (n cq : ℕ) (m : Machine Ibv W)
      → m.prot.event_thread ≡ some (polls cq)
      → Counted n m
      → Goes n (poll_step verbs cq m)
  polls_step n cq m at k = go (verbs.poll_cq cq w₁).0 (c.poll_law cq w₁)
    where
      h₁ : Heap
      h₁ = (verbs.dma m.heap m.sys).0

      w₁ : W
      w₁ = (verbs.dma m.heap m.sys).1

      m₂ : Machine Ibv W
      m₂ = record m { heap = h₁; sys = (verbs.poll_cq cq w₁).1 }

      judge : Bool → Ibv → M (Machine Ibv W) (Unit {0})
      judge good t = elim good [
        | false ↦ exit (negsuc 0)
        | true ↦ elim (t.receive_complete == 1) [
          | true ↦ thread_to (holds cq)
          | false ↦ raise_flag cq
        ]
      ]

      idle : M (Machine Ibv W) (Unit {0})
      idle = do
        t ← gets (λ (m : Machine Ibv W). m.prot)
        r_cq ← defined t.r_cq_hndl
        call (verbs.req_notify_cq r_cq)
        thread_to waits

      run : Poll → M (Machine Ibv W) (Unit {0})
      run found = elim found [
        | empty ↦ idle
        | broken ↦ exit (negsuc 0)
        | completed good ↦ do
          set_prot (λ (t : Ibv). record t { wc_success = good })
          t ← gets (λ m. m.prot)
          judge good t
      ]

      none_in_hand : in_hand m.prot.event_thread ≡ 0
      none_in_hand = ap in_hand at

      total :
          (p : ℕ)
          → c.taken m₂.sys ≡ c.taken w₁ + p
          → c.taken m₂.sys ≡ n + m.prot.receive_complete + p
      total p e = omega (arith, e, c.dma_quiet m.heap m.sys, k.sum_is, none_in_hand)

      go : (found : Poll) → c.taken m₂.sys ≡ c.taken w₁ + one_of found → Goes n (run found m₂)
      go broken e = ends _ _
      go (completed false) e = ends _ _
      go (completed true) e =
          good_step n cq (record m₂ { prot = record (m.prot) { wc_success = true } })
            (record {
              queue = k.queue;
              queue_is = k.queue_is;
              flag_le = k.flag_le;
              sum_is = total 1 e;
            })
      go empty e =
          subst (λ (o : Option ℕ). Goes n (and_then (defined o m₂) rest)) (sym k.queue_is)
            (returns tt _ (record {
              queue = k.queue;
              queue_is = k.queue_is;
              flag_le = k.flag_le;
              sum_is = c.notify_quiet k.queue m₂.sys ∙ total 0 e;
            }))
        where
          rest : ℕ → M (Machine Ibv W) (Unit {0})
          rest r_cq = call (verbs.req_notify_cq r_cq) >> thread_to waits

  holds_step :
      (n cq : ℕ) (m : Machine Ibv W)
      → m.prot.event_thread ≡ some (holds cq)
      → Counted n m
      → Goes n (thread_step verbs (holds cq) m)
  holds_step n cq m at k = go (m.prot.receive_complete == 0) refl
    where
      run : Bool → M (Machine Ibv W) (Unit {0})
      run down = elim down [ true ↦ raise_flag cq | false ↦ skip ]

      moved : (f : ℕ) → (f == 0) ≡ true → f ≡ m.prot.receive_complete → c.taken m.sys ≡ n + 1 + 0
      moved f e same =
          let one : in_hand m.prot.event_thread ≡ 1 = ap in_hand at in
          let zero_is : f ≡ 0 = (==_iff f 0).0 e in omega (arith, same, zero_is, one, k.sum_is)

      go : (down : Bool) → (m.prot.receive_complete == 0) ≡ down → Goes n (run down m)
      go false e = returns tt _ k
      go true e = returns tt _ (record {
        queue = k.queue;
        queue_is = k.queue_is;
        flag_le = omega arith;
        sum_is = moved m.prot.receive_complete e refl;
      })

  -- A step of the thread keeps the account: it goes on, or ends the process.
  pub event_step-Counted :
      (n : ℕ) (m : Machine Ibv W) → Counted n m → Stays (Counted n) (event_step verbs m)
  unfolding event_step
  event_step-Counted n m k = go m.prot.event_thread refl
    where
      run : Option ThreadAt → M (Machine Ibv W) (Unit {0})
      run o = elim o [ none ↦ skip | some at ↦ thread_step verbs at ]

      go : (o : Option ThreadAt) → m.prot.event_thread ≡ o → Goes n (run o m)
      go none e = returns tt _ k
      go (some waits) e = waits_step n m e k
      go (some (polls cq)) e = polls_step n cq m e k
      go (some (holds cq)) e = holds_step n cq m e k
      go (some ended) e = returns tt _ k
