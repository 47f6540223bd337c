-- ===== src/Profile/Tests.antt =====
-- Profiles, and the theorems at inputs that meet their hypotheses.
use mes_copy.Base.{
  ℕ, ◌+◌, ◌≤◌, ◌≡◌, refl, Bool, true, ◌&&◌, none, some, List, [], ◌∷◌, count, select, is_some,
}
use mes_copy.Profile.{Station, is_previewed, sorted_routing_preview}
use mes_copy.Profile.Validation.{
  duplicate_resource_id, hierarchy_cycle, validate_profile_draft, finds_cycle,
}
use mes_copy.Profile.Setup.{profile_setup_summary, total, profile_setup_summary_lem}
use mes_copy.Profile.Hierarchy.{finds_cycle-ends}
use mes_copy.Profile.Accepted.{IsAcceptable, validate_profile_draft-IsAcceptable}
use mes_copy.Profile.Preview.{IsSorted, same_sequence, sorted_routing_preview_lem}

-- A press with two stations of equal and of smaller sequence below it.
abbrev press : Station
press = record {
  station_id = "press";
  resource_id = some 72;
  parent_resource_id = none;
  enabled = true;
  capabilities = "routing" ∷ [];
  routing = some (record { enabled = none; sequence = some 20 });
  endpoint_url = "opc.tcp://127.0.0.1:4841";
  signals = 3;
}

abbrev infeed : Station
infeed = record {
  station_id = "infeed";
  resource_id = some 71;
  parent_resource_id = some 72;
  enabled = true;
  capabilities = "routing" ∷ [];
  routing = some (record { enabled = some true; sequence = some 10 });
  endpoint_url = "";
  signals = 0;
}

abbrev stations : List Station
stations = press ∷ infeed ∷ []

abbrev cyclic : List Station
cyclic = record press { parent_resource_id = some 71 } ∷ infeed ∷ []

cyclic_test :
    validate_profile_draft cyclic ≡ hierarchy_cycle "press" ∷ hierarchy_cycle "infeed" ∷ []
unfolding validate_profile_draft
cyclic_test = refl

-- The later of two stations with one resource id is the one that the hierarchy takes.
duplicate_test :
    validate_profile_draft (press ∷ record infeed { resource_id = some 72 } ∷ [])
    ≡ duplicate_resource_id 72 ∷ hierarchy_cycle "infeed" ∷ []
unfolding validate_profile_draft
duplicate_test = refl

validate_profile_draft-IsAcceptable_example : IsAcceptable stations
unfolding validate_profile_draft
validate_profile_draft-IsAcceptable_example = validate_profile_draft-IsAcceptable stations refl

finds_cycle-ends_example : is_some (finds_cycle cyclic 72 press) ≡ true
finds_cycle-ends_example = finds_cycle-ends cyclic 72 press

profile_setup_summary_lem_example :
    (total (profile_setup_summary stations).counts ≡ (profile_setup_summary stations).station_count)
    × ((profile_setup_summary stations).counts.planned
          + (profile_setup_summary stations).endpoint_count
        ≡ (profile_setup_summary stations).station_count)
    × ((profile_setup_summary stations).mapped_count
        ≤ (profile_setup_summary stations).endpoint_count)
profile_setup_summary_lem_example = profile_setup_summary_lem stations

sorted_routing_preview_lem_example :
    IsSorted (sorted_routing_preview stations)
    × ((p : Station → Bool)
        → count p (sorted_routing_preview stations) ≡ count (λ s. is_previewed s && p s) stations)
    × ((n : ℕ)
        → select (same_sequence n) (sorted_routing_preview stations)
          ≡ select (same_sequence n) (select is_previewed stations))
sorted_routing_preview_lem_example = sorted_routing_preview_lem stations
