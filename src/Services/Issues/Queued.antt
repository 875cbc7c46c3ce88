-- ===== src/Services/Issues/Queued.antt =====
-- The rows that the services put into the outbox, as the worker reads them.
use nagarik_signals.Base.{ℕ, ◌≡◌, subst, true, some, String, ==_refl, nat_eq, string_eq, ok}
use nagarik_signals.Chain.Protocol.{Hashing, operation_name}
use nagarik_signals.Chain.Job.Schema.{Envelope}
use nagarik_signals.Chain.Job.Codec.{PreparedChainJob, prepare_chain_job}
use nagarik_signals.Chain.Outbox.Claim.{leased_row}
use nagarik_signals.Chain.Outbox.Matching.{row_matches, prepare_chain_outbox_record}
use nagarik_signals.Services.Issues.{outbox_row}

row_matches-outbox_row :
    (id issue_id version_id owner : String) (now seconds at : ℕ) (p : PreparedChainJob)
    → row_matches (leased_row owner seconds at (outbox_row id issue_id version_id p.envelope now)) p
      ≡ true
unfolding row_matches outbox_row
row_matches-outbox_row id issue_id version_id owner now seconds at p = rw (
  ==_refl (operation_name p.operation),
  ==_refl p.operation_id,
  ==_refl p.event_id,
  ==_refl p.next.update_count,
  ==_refl p.payload_hash,
)

-- A job that `prepareChainJob` accepts is read from its row, by whoever leases the row.
pub prepare_chain_outbox_record-outbox_row :
    (h : Hashing) (id issue_id version_id owner : String) (now seconds at : ℕ) (j : Envelope)
    (p : PreparedChainJob)
    → prepare_chain_job h (some j) ≡ ok p
    → p.envelope ≡ j
    → prepare_chain_outbox_record h
        (leased_row owner seconds at (outbox_row id issue_id version_id j now))
      ≡ ok p
unfolding prepare_chain_outbox_record outbox_row
prepare_chain_outbox_record-outbox_row h id issue_id version_id owner now seconds at j p e same =
    rw (
      e,
      subst
          (λ k.
            row_matches (leased_row owner seconds at (outbox_row id issue_id version_id k now)) p
            ≡ true)
          same (row_matches-outbox_row id issue_id version_id owner now seconds at p),
    )
