-- ===== src/Services/Signals/Effects.antt =====
-- The public count of an issue after a signal is recorded or retracted.
use nagarik_signals.Base.{ℕ, ◌≡◌, ◌+◌, not, Bool, ok}
use nagarik_signals.Services.Operations.{OperatorDependencies}
use nagarik_signals.Services.Issues.{Issue}
use nagarik_signals.Services.Signals.{SignalRequest, SignalResult, signalable}
use nagarik_signals.Services.Signals.Store.{
  signal_state_eq, SignalTables, count_active, write_count,
}
use nagarik_signals.Services.Signals.Laws.{IsUnique}
use nagarik_signals.Services.Signals.Moves.{one_if}

-- The signals stay unique, the answer's count is that of the active signals, it is the one that the
-- projection gets, and it has moved by one if the request was not a replay.
pub record IsCounted (gained lost : Bool → ℕ) (d : OperatorDependencies) (q : SignalRequest)
    (t : SignalTables) (r : SignalResult) (t' : SignalTables) : Type 0 where
  pub issue : Issue
  pub found : signalable q t ≡ ok issue
  pub unique : IsUnique t'.signals
  pub counted : r.signal_count ≡ count_active issue.id t'.signals
  pub projected : t'.projections ≡ write_count q.public_id r.signal_count d.now t.projections
  pub moved : r.signal_count + lost r.replayed ≡ count_active issue.id t.signals + gained r.replayed

abbrev pub unless : Bool → ℕ
unless replayed = one_if (not replayed)

abbrev pub never : Bool → ℕ
never replayed = 0
