-- ===== src/Writer/Senders.antt =====
-- The loop of a writer and any number of callers of its WriteSpan, who send on the channel writeCh
-- at once, and Close (storev1/writer.go, storev2/writer.go). The channel has no buffer: a point is
-- sent when the loop takes it. To send on it when it is closed is a panic, which ends the program.
pub mod InOrder
use jaeger_influxdb.Prelude.{
  ℕ, ◌≡◌, Bool, true, false, List, [], ◌∷◌, ◌++◌, Text, nat_eq, if◌then◌else◌,
}
use jaeger_influxdb.Writer.Batch.{Event, point, closed, timer, Batcher, new_batcher, batch_step}

-- The callers by number: the points that a call has still to send, and all points that were given
-- to the caller's calls; and the points that the loop has taken from the channel, with their
-- callers. The last two are not in the code.
pub record System : Type 0 where
  pub batcher : Batcher
  pub pending : ℕ → List Text
  pub is_closed : Bool
  pub crashed : Bool
  pub given : ℕ → List Text
  pub taken : List (ℕ × Text)

unfoldable pub new_system : System
new_system = record {
  batcher = new_batcher;
  pending = λ i. [];
  is_closed = false;
  crashed = false;
  given = λ i. [];
  taken = [];
}

abbrev pub update : (ℕ → List Text) → ℕ → List Text → ℕ → List Text
update f i a j = if nat_eq i j then a else f j

abbrev pub loop_step : ℕ → System → Event → System
loop_step capacity s e = record s { batcher = batch_step capacity s.batcher e }

-- One step of a caller, of the loop or of Close, while the program runs.
pub data Step (capacity : ℕ) (s : System) : System → Type 0 where
  call :
      (i : ℕ) (texts : List Text)
      → s.crashed ≡ false
      → s.pending i ≡ []
      → Step capacity s (record s {
        pending = update s.pending i texts;
        given = update s.given i (s.given i ++ texts);
      })
  send :
      (i : ℕ) (p : Text) (ps : List Text)
      → s.crashed ≡ false
      → s.is_closed ≡ false
      → s.pending i ≡ p ∷ ps
      → Step capacity s (record (loop_step capacity s (point p)) {
        pending = update s.pending i ps;
        taken = s.taken ++ (i, p) ∷ [];
      })
  send_closed :
      (i : ℕ) (p : Text) (ps : List Text)
      → s.crashed ≡ false
      → s.is_closed ≡ true
      → s.pending i ≡ p ∷ ps
      → Step capacity s (record s { crashed = true })
  fire : s.crashed ≡ false → Step capacity s (loop_step capacity s timer)
  close : s.crashed ≡ false → s.is_closed ≡ false → Step capacity s (record s { is_closed = true })
  take_closed :
      s.crashed ≡ false → s.is_closed ≡ true → Step capacity s (loop_step capacity s closed)

pub data Reach (capacity : ℕ) : System → Type 0 where
  start : Reach capacity new_system
  later : {s t : System} → Reach capacity s → Step capacity s t → Reach capacity t
