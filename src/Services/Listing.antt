-- ===== src/Services/Listing.antt =====
-- `ListServices`: which entries it returns, and what they hold.
use edge_scpoe.Base.{◌≡◌, ◌⊎◌, inl, inr, refl, ap, List, [], ◌∷◌, ◌++◌, map, none, some, arith}
use edge_scpoe.Text.{Bytes}
use edge_scpoe.Services.{
  ServiceInfo, Runner, Ran, ran, failed, CommandResult, Listed, show_command, service_info, listed,
  list_services,
}

-- The entries are those of the first names; if a command could not be run, they stop at its name and
-- the error is its text, and otherwise they are all there with no error.
pub record Lists (run : Runner) (names : List Bytes) (l : Listed) : Type 0 where
  pub listed_names : List Bytes
  pub results : List CommandResult
  pub unlisted : List Bytes
  pub splits : names ≡ listed_names ++ unlisted
  pub each_ran : map (λ n. run (show_command n)) listed_names ≡ map ran results
  pub named : map (λ (s : ServiceInfo). s.name) l.services ≡ listed_names
  pub ends :
      ((unlisted ≡ []) × (l.error ≡ none))
      ⊎ ((name : Bytes) × (rest : List Bytes) × (text : Bytes) × (unlisted ≡ name ∷ rest)
          × (run (show_command name) ≡ failed text)
          × (l.error ≡ some text))

name-service_info : (name : Bytes) (r : CommandResult) → (service_info name r).name ≡ name
unfolding service_info
name-service_info name r = ground arith

Lists-next :
    (run : Runner) (name : Bytes) (names : List Bytes) (rest : Listed) (r : Ran)
    → run (show_command name) ≡ r
    → Lists run names rest
    → Lists run (name ∷ names) (listed name r rest)
unfolding listed
Lists-next run name names rest (failed text) e l = record {
  listed_names = [];
  results = [];
  unlisted = name ∷ names;
  splits = refl;
  each_ran = refl;
  named = refl;
  ends = inr (name, names, text, refl, e, refl);
}
Lists-next run name names rest (ran result) e l = record {
  listed_names = name ∷ l.listed_names;
  results = result ∷ l.results;
  unlisted = l.unlisted;
  splits = ap (◌∷◌ name) l.splits;
  each_ran = rw e (ap (◌∷◌ (ran result)) l.each_ran);
  named = rw (name-service_info name result) (ap (◌∷◌ name) l.named);
  ends = l.ends;
}

-- `ListServices` returns one entry for each name of the whitelist, in its order, up to the first name
-- whose command cannot be run; that command's text is then the error, and with none the list is
-- complete and there is no error.
pub list_services-Lists :
    (run : Runner) (names : List Bytes) → Lists run names (list_services run names)
unfolding list_services
list_services-Lists run [] = record {
  listed_names = [];
  results = [];
  unlisted = [];
  splits = refl;
  each_ran = refl;
  named = refl;
  ends = inl (refl, refl);
}
list_services-Lists run (name ∷ names) =
    Lists-next run name names (list_services run names) (run (show_command name)) refl
      (list_services-Lists run names)
