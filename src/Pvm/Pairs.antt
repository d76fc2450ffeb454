-- ===== src/Pvm/Pairs.antt =====
-- src/pvm.c: how the two tasks find each other.
use netpipe5_dev.Base.{
  ℕ, ◌==◌, ◌≡◌, ◌≢◌, ◌⊎◌, inl, inr, ◌∙◌, ap, arith, ℤ, pos, negsuc, Bool, true, false,
  if◌then◌else◌, List, [], ◌∷◌,
}
use netpipe5_dev.Effect.{M, Outcome, done, and_then, exit, when, truth, ◌>>=◌}
use netpipe5_dev.Machine.{Machine, call, print, set_prot, no_other_task}
use netpipe5_dev.Pvm.{PvmLibrary, Pvm, int_eq, other_task, greet, among, be_found, pvm_setup}

module _ {W : Type 0} (lib : PvmLibrary W) where
  -- The state of the library when `a` was sent to `b`.
  abbrev pub greeted : ℤ → ℤ → W → W
  greeted a b w = (lib.send b 1 (lib.pkint a (lib.initsend (lib.route_direct w).1).1).1).1

  -- The machine that knows both ids.
  abbrev pub met : Machine Pvm W → ℤ → ℤ → W → Machine Pvm W
  met m mine other w = record m { prot = record { mytid = mine; othertid = other }; sys = w }

  other_first : (a b : ℕ) → a ≢ b → other_task (pos a) (pos a) (pos b) ≡ pos b
  other_first a b h =
      ap (λ (t : Bool). if t then pos a else if a == a then pos b else negsuc 0) (apart a b h)
      ∙ ap (λ (t : Bool). if t then pos b else negsuc 0) (same a)
    where
      apart : (a b : ℕ) → a ≢ b → (b == a) ≡ false
      apart a b h = ground arith

      same : (a : ℕ) → (a == a) ≡ true
      same a = ground arith

  other_second : (a b : ℕ) → other_task (pos a) (pos b) (pos a) ≡ pos b
  other_second a b =
      ap (λ (t : Bool). if t then pos b else if b == a then pos a else negsuc 0) (same a)
    where
      same : (a : ℕ) → (a == a) ≡ true
      same a = ground arith

  -- In a PVM machine of two tasks with the ids a and b, listed in either order, the Setup of the
  -- PVM module makes the transmitter, a, know b and send it its id after the route and the buffer
  -- are set up, and makes the receiver, b, to which a message with the id a comes, know a; neither
  -- prints anything, and nothing else of the processes is changed.
  pub pvm_setup_pairs :
      (a b buffer : ℕ) (ts : List ℤ) (m₀ m₁ : Machine Pvm W) (v₀ w₀ v₁ w₁ x₁ : W)
      → a ≢ b
      → m₀.args.tr ≡ 1
      → m₁.args.tr ≡ 0
      → lib.mytid m₀.sys ≡ (pos a, v₀)
      → lib.tasks v₀ ≡ (ts, w₀)
      → (ts ≡ pos a ∷ pos b ∷ []) ⊎ (ts ≡ pos b ∷ pos a ∷ [])
      → lib.mytid m₁.sys ≡ (pos b, v₁)
      → lib.recv (negsuc 0) (negsuc 0) v₁ ≡ (pos buffer, w₁)
      → lib.upkint w₁ ≡ (pos a, x₁)
      → (pvm_setup lib m₀ ≡ done tt (met m₀ (pos a) (pos b) (greeted (pos a) (pos b) w₀)))
        × (pvm_setup lib m₁ ≡ done tt (met m₁ (pos b) (pos a) x₁))
  unfolding pvm_setup
  pvm_setup_pairs a b buffer ts m₀ m₁ v₀ w₀ v₁ w₁ x₁ apart tr rcv id₀ found order id₁ came
        unpacked =
      (
        ap (λ (r : ℤ × W). establish m₀.args.tr (started m₀ r.0 r.1)) id₀
            ∙ ap (λ (tr : ℕ). establish tr (started m₀ (pos a) v₀)) tr
            ∙ ap (λ (r : List ℤ × W). among lib r.0 (started m₀ (pos a) r.1)) found
            ∙ either order,
        ap (λ (r : ℤ × W). establish m₁.args.tr (started m₁ r.0 r.1)) id₁
            ∙ ap (λ (tr : ℕ). establish tr (started m₁ (pos b) v₁)) rcv
            ∙ ap (λ (r : ℤ × W). unpack r.0 (started m₁ (pos b) r.1)) came
            ∙ ap (λ (r : ℤ × W). done tt (met m₁ (pos b) r.0 r.1)) unpacked,
      )
    where
      started : Machine Pvm W → ℤ → W → Machine Pvm W
      started m mine w = record m { prot = record (m.prot) { mytid = mine }; sys = w }

      establish : ℕ → M (Machine Pvm W) (Unit {0})
      establish tr = if truth tr then (do ts ← call (lib.tasks); among lib ts) else be_found lib

      unpack : ℤ → M (Machine Pvm W) (Unit {0})
      unpack buffer = elim buffer [
        | negsuc n ↦ exit (negsuc 0)
        | pos n ↦ do
          other ← call (lib.upkint)
          set_prot (λ (t : Pvm). record t { othertid = other })
      ]

      sent : ℤ → ℤ → ℤ → Outcome (Machine Pvm W) (Unit {0})
      sent other first second =
          and_then
            (when (int_eq other (negsuc 0)) (print (no_other_task first second))
              (met m₀ (pos a) other w₀))
            (λ _. greet lib)

      either :
          (ts ≡ pos a ∷ pos b ∷ []) ⊎ (ts ≡ pos b ∷ pos a ∷ [])
          → among lib ts (started m₀ (pos a) w₀)
            ≡ done tt (met m₀ (pos a) (pos b) (greeted (pos a) (pos b) w₀))
      either (inl e) =
          ap (λ (ts : List ℤ). among lib ts (started m₀ (pos a) w₀)) e
          ∙ ap (λ (other : ℤ). sent other (pos a) (pos b)) (other_first a b apart)
      either (inr e) =
          ap (λ (ts : List ℤ). among lib ts (started m₀ (pos a) w₀)) e
          ∙ ap (λ (other : ℤ). sent other (pos b) (pos a)) (other_second a b)
