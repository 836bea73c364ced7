-- ===== src/Pipeline/Sends.antt =====
-- The send pass of the admission arm (runtime.rs): it hands the descriptors over with their gates, up to
-- a send that fails because the workers have closed the channel. The descriptor of that send and the
-- gates that are left drop.
use opendata_contrib.Common.{ℕ, zero, suc, List, [], ◌∷◌}
use opendata_contrib.Budget.{ByteReservation}
use opendata_contrib.Pipeline.{AdmittedDescriptor}
use opendata_contrib.Source.{SourceBatchDescriptor}

-- What has been sent, and after a failure the sequence of the lost descriptor and the gates left.
pub data Sends : Type 0 where
  all_sent : List AdmittedDescriptor → Sends
  lost : List AdmittedDescriptor → ℕ → List ByteReservation → Sends

abbrev pub sent_first : AdmittedDescriptor → Sends → Sends
sent_first u (all_sent us) = all_sent (u ∷ us)
sent_first u (lost us seq rs) = lost (u ∷ us) seq rs

-- `taken`: how many sends the channel still takes.
unfoldable pub send_all : List SourceBatchDescriptor → List ByteReservation → ℕ → Sends
send_all [] rs taken = all_sent []
send_all (d ∷ ds) [] taken = all_sent []
send_all (d ∷ ds) (r ∷ rs) zero = lost [] d.sequence (r ∷ rs)
send_all (d ∷ ds) (r ∷ rs) (suc taken) =
    sent_first (record { descriptor = d; reservation = r }) (send_all ds rs taken)

abbrev pub sent_of : Sends → List AdmittedDescriptor
sent_of (all_sent us) = us
sent_of (lost us seq rs) = us
