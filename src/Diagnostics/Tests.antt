-- ===== src/Diagnostics/Tests.antt =====
-- A test of the way of a bundle from its creation to the client.
use edge_scpoe.Base.{refl, true, false, [], arith}
use edge_scpoe.Metrics.{empty_metrics}
use edge_scpoe.Sampler.{collected}
use edge_scpoe.Bundles.{DiagnosticCollector}
use edge_scpoe.Bundles.Backed.{Backed}
use edge_scpoe.Bundles.Stored.{IsStored}
use edge_scpoe.Bundles.Example.{show, answers, root}
use edge_scpoe.Transfer.Server.{Line}
use edge_scpoe.Transfer.Complete.{IsClear}
use edge_scpoe.Diagnostics.{create_diagnostic_bundle}
use edge_scpoe.Diagnostics.Downloads.{Downloads, create_diagnostic_bundle-Downloads}

abbrev line : Line
line = record { cancelled = λ n. false; writes = λ n. true; bad = false }

line-IsClear : IsClear line
line-IsClear = record { no_cancel = λ n. refl; all_written = λ n. refl; sound = refl }

abbrev new_store : DiagnosticCollector
new_store = record { bundles = []; sequence = 0; disk = record { stagings = []; archives = [] } }

new_store-IsStored : IsStored new_store
new_store-IsStored = record {
  unstaged = refl;
  bounded = omega arith;
  backed = (0, Backed.nothing (omega arith));
}

create_diagnostic_bundle-Downloads_example :
    Downloads line
      (λ p. true)
      (λ n. true)
      (λ t. t)
      root
      (create_diagnostic_bundle root answers show (collected (empty_metrics 0)) new_store)
create_diagnostic_bundle-Downloads_example =
    create_diagnostic_bundle-Downloads line (λ p. true) (λ n. true) (λ t. t) root answers show
      (collected (empty_metrics 0)) new_store line-IsClear (λ p. refl) (λ n. refl) (λ t. refl)
      (λ p. refl) new_store-IsStored (omega arith)
