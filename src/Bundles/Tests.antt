-- ===== src/Bundles/Tests.antt =====
-- Tests of the store of bundles.
use edge_scpoe.Base.{ℕ, List, ◌≡◌, refl, true, [], ◌∷◌, arith}
use edge_scpoe.Text.{Bytes, codes}
use edge_scpoe.Text.Decimal.{to_string}
use edge_scpoe.Metrics.{SystemMetrics, empty_metrics}
use edge_scpoe.Bundles.{StoredBundle, DiagnosticCollector, remove_all_bundles}
use edge_scpoe.Bundles.Create.{Answers, create_bundle, archive_path, bundle_id}
use edge_scpoe.Bundles.Backed.{Backed}
use edge_scpoe.Bundles.Names.{number_of-id, number_of-path}
use edge_scpoe.Bundles.Stored.{IsStored, Kept}
use edge_scpoe.Bundles.Example.{show, answers, root}
use edge_scpoe.Bundles.Calls.{
  create_bundle-Kept, create_bundles, create_bundles-IsStored, remove_all_bundles-empties,
}

id_text : bundle_id 7 3 2 ≡ codes "7-3-2"
unfolding to_string
id_text = refl

abbrev first_id : Bytes
first_id = bundle_id 5 3 1

abbrev first_bundle : StoredBundle
first_bundle = record {
  info = record {
    id = first_id;
    filename = codes "f";
    size_bytes = 1;
    created_at_unix_seconds = 5;
  };
  path = archive_path root first_id;
}

-- A store with one bundle.
abbrev store : DiagnosticCollector
store = record {
  bundles = first_bundle ∷ [];
  sequence = 1;
  disk = record { stagings = []; archives = (archive_path root first_id, 9 ∷ []) ∷ [] };
}

store-IsStored : IsStored store
store-IsStored = record {
  unstaged = refl;
  bounded = omega arith;
  backed = (
    0,
    Backed.bundle 1 (omega arith)
        (record {
          id_number = number_of-id 5 3 1;
          path_number = number_of-path root 5 3 1;
          same_path = refl;
          same_size = refl;
        })
        (Backed.nothing (omega arith)),
  );
}

create_bundle-Kept_example :
    Kept root store (create_bundle root answers show (empty_metrics 0) store)
create_bundle-Kept_example =
    create_bundle-Kept root answers (λ p. refl) show (empty_metrics 0) store store-IsStored
      (omega arith)

remove_all_bundles-empties_example :
    (remove_all_bundles (λ p. true) store.bundles store.disk).archives ≡ []
remove_all_bundles-empties_example =
    remove_all_bundles-empties (λ p. true) (λ p. refl) store store-IsStored

abbrev calls : List (Answers ℕ × SystemMetrics ℕ)
calls = (answers, empty_metrics 0) ∷ (answers, empty_metrics 0) ∷ []

create_bundles-IsStored_example : IsStored (create_bundles root show calls store)
create_bundles-IsStored_example =
    create_bundles-IsStored root show calls store ((λ p. refl), ((λ p. refl), tt)) store-IsStored
      (omega arith)
