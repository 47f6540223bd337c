-- ===== src/Scan/Tests.antt =====
-- A scan of an address space without an end, and the theorem at it.
use mes_copy.Base.{ℕ, ◌≡◌, refl, Bool, true, false, Option, none, some, [], ◌∷◌, ◌<>◌, length}
use mes_copy.Scan.{Session, Scan, scan_address_space}
use mes_copy.Scan.Bounds.{Ends, scan_address_space-Ends}

-- Every object has an object below it.
abbrev endless : Session
endless = record {
  references = λ id.
      record {
        node_id = id <> "x";
        browse_name = some "child";
        display_name = none;
        node_class = "Object";
      }
      ∷ [];
  metadata = λ _. record {
    data_type = none;
    access_level = none;
    user_access_level = none;
    value_rank = none;
  };
}

abbrev is_cut : Option Scan → Bool
is_cut none = false
is_cut (some scan) = scan.truncated

abbrev count_nodes : Option Scan → ℕ
count_nodes none = 0
count_nodes (some scan) = length scan.nodes

cut_test :
    (is_cut (scan_address_space endless 100 3 "r") ≡ true)
    × (count_nodes (scan_address_space endless 100 3 "r") ≡ 3)
unfolding scan_address_space
cut_test = (refl, refl)

deep_test :
    (is_cut (scan_address_space endless 1 9 "r") ≡ false)
    × (count_nodes (scan_address_space endless 1 9 "r") ≡ 2)
unfolding scan_address_space
deep_test = (refl, refl)

scan_address_space-Ends_example : Ends endless 100 3 (scan_address_space endless 100 3 "r")
scan_address_space-Ends_example = scan_address_space-Ends endless 100 3 "r"
