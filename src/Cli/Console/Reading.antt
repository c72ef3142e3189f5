-- ===== src/Cli/Console/Reading.antt =====
-- How many events the reads of cli/runner.go consume: what a run leaves of them, and where it stops.
use zero_comm.Prelude.{
  ℕ, Text, List, [], ◌∷◌, ◌≡◌, refl, ◌≤◌, ◌<◌, arith, length, Result, ok, err, panic,
}
use zero_comm.Prelude.Method.{Method}
use zero_comm.Cli.Console.{
  Event, line, failed, heard, Runner, Turn, Run, blocked, exited, crashed, out_of_fuel, done, ◌>>=◌,
  continue, settle, attempt, listen, Shown, print, read_from, read_string, ask_from, input,
}

-- A run that goes on has fewer events left than this, and one that waits for input has none. None has
-- run out of fuel.
abbrev pub Within : {S A : Type 0} → ℕ → Turn A × Runner S → Type 0
Within n (done a, r) = length r.events < n
Within n (blocked, r) = r.events ≡ []
Within n (exited, r) = Unit
Within n (crashed, r) = Unit
Within n (out_of_fuel, r) = ⊥

module _ {S A : Type 0} where
  -- consumes no event that it does not read
  pub record Keeps (m : Run S A) : Type 0 where
    pub within : (n : ℕ) (r : Runner S) → length r.events < n → Within n (m r)

  -- reads at least one event
  abbrev pub Reads : Run S A → Type 0
  Reads m = (n : ℕ) (r : Runner S) → length r.events ≤ n → Within n (m r)

module _ {S A B : Type 0} (f : A → Run S B) (keeps : (a : A) → Keeps (f a)) where
  pub Within-continue :
      (n : ℕ) (t : Turn A) (r : Runner S) → Within n (t, r) → Within n (continue t f r)
  Within-continue n (done a) r h = (keeps a).within n r h
  Within-continue n blocked r h = h
  Within-continue n exited r h = h
  Within-continue n crashed r h = h
  Within-continue n out_of_fuel r h = h

  pub Keeps->>= : (m : Run S A) → Keeps m → Keeps (λ r. (m >>= f) r)
  Keeps->>= m h = record {
    within = λ n r few. Within-continue n (m r).0 (m r).1 (h.within n r few);
  }

  pub Reads->>= : (m : Run S A) → Reads m → Reads (m >>= f)
  Reads->>= m h n r few = Within-continue n (m r).0 (m r).1 (h n r few)

module _ {S A B : Type 0} (f : A → Run S B) (g : Run S B) (keeps : (a : A) → Keeps (f a))
    (keeps_else : Keeps g) where
  Within-settle :
      (res : Result A) (n : ℕ) (r : Runner S) → length r.events < n → Within n (settle res f g r)
  Within-settle (ok a) n r few = (keeps a).within n r few
  Within-settle (err e) n r few = keeps_else.within n r few
  Within-settle panic n r few = tt

  pub Keeps-attempt : (m : Method S A) → Keeps (λ r. attempt m f g r)
  Keeps-attempt m = record { within = λ n r few. Within-settle (m r.agents).0 n _ few }

module _ {S : Type 0} where
  pub Keeps-print : (s : Shown) → Keeps {S = S} (print s)
  Keeps-print s = record { within = λ n r few. few }

  events-listen : (t : Text) (r : Runner S) → (listen t r).events ≡ r.events
  unfolding listen
  events-listen t r = ground arith

  Within-read : (es : List Event) (n : ℕ) (r : Runner S) → length es ≤ n → Within n (read_from es r)
  unfolding read_from
  Within-read [] n r few = refl
  Within-read (line t ∷ es) n r few = omega arith
  Within-read (failed t ∷ es) n r few = omega arith
  Within-read (heard t ∷ es) n r few = Within-read es n (listen t r) (omega arith)

  pub Reads-read : Reads {S = S} read_string
  Reads-read n r few = Within-read r.events n r few

  Within-ask :
      (label : Text) (es : List Event) (n : ℕ) (r : Runner S)
      → length es < n
      → Within n (ask_from label es r)
  unfolding ask_from
  Within-ask label [] n r few = refl
  Within-ask label (line t ∷ es) n r few = omega arith
  Within-ask label (failed t ∷ es) n r few = Within-ask label es n _ (omega arith)
  Within-ask label (heard t ∷ es) n r few = Within-ask label es n (listen t r) (omega arith)

  pub Keeps-input : (label : Text) → Keeps {S = S} (input label)
  unfolding input
  Keeps-input label = record { within = λ n r few. Within-ask label r.events n _ few }
