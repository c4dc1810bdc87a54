-- ===== src/Sync/Event/Tests.antt =====
-- Witnesses and tests.
use cofuos.Prelude.{false, []}
use cofuos.Sync.Event.{Event}

abbrev unset : Event
unset = record { state = false; wait_queue = [] }
