-- ===== src/Policy/Waivers/Examples.antt =====
-- A waiver in force, and one that is only proposed.
use chipchamp.Prelude.{Bool, false, Option, some, List, [], ◌∷◌}
use chipchamp.Text.{Text, codes}
use chipchamp.Policy.Waivers.{Waiver, Finding, apply_waivers}
use chipchamp.Policy.Waivers.Applied.{Outcomes, apply_waivers-Outcomes}

abbrev unused : Waiver
unused = record {
  rule = codes "UNUSED*";
  scope = codes "rtl/*";
  approver = some (codes "lead");
  status = codes "active";
  expires = codes "2030-01-01";
}

abbrev waivers : List Waiver
waivers = record unused { status = codes "proposed" } ∷ unused ∷ []

abbrev findings : List Finding
findings =
    record { code = codes "UNUSEDSIGNAL"; file = codes "/w/rtl/a.v"; waiver = [] }
    ∷ record { code = codes "WIDTH"; file = codes "/w/rtl/a.v"; waiver = [] }
    ∷ []

abbrev from_root : Text → Text → Text
from_root root file = codes "rtl/a.v"

abbrev not_yet : Text → Option Bool
not_yet date = some false

apply_waivers-Outcomes_example :
    let r = apply_waivers from_root not_yet waivers (codes "/w") findings in
    Outcomes from_root not_yet waivers (codes "/w") findings r.0 r.1
apply_waivers-Outcomes_example =
    apply_waivers-Outcomes from_root not_yet waivers (codes "/w") findings
