-- ===== src/Policy/Antigaming/Examples.antt =====
-- A change that drops an assertion and halves no timeout, and one that deletes a test.
use chipchamp.Prelude.{◌≡◌, ◌↔◌, refl, false, [], ◌∷◌}
use chipchamp.Text.{codes}
use chipchamp.Policy.Diff.{Diff, FileChange, modified, deleted}
use chipchamp.Policy.Antigaming.{
  asserts, checks, rands, max_timeout, pins_seed, covers, is_deleted, is_test, cut, add, removed,
  weakened, edited, scan,
}
use chipchamp.Policy.Antigaming.Clean.{AllHarmless, scan-AllHarmless}

abbrev bench : FileChange
bench = record {
  path = codes "tb/tb_core.sv";
  status = modified;
  old_text = codes "assert property (p);\n// assert final\nwatchdog = 5000;";
  new_text = codes "x <= 1;\nwatchdog: 3000;";
}

abbrev weaker : Diff
weaker = record {
  files = bench ∷ record bench { status = deleted } ∷ [];
  declared_nfc = false;
  declared_cdc = false;
  declared_timing = false;
}

weaker_findings :
    scan weaker
    ≡ record {
      kind = codes "removed_test_file";
      file = codes "tb/tb_core.sv";
      acknowledged = false;
    }
      ∷ record {
        kind = codes "disabled_assertion";
        file = codes "tb/tb_core.sv";
        acknowledged = false;
      }
      ∷ []
unfolding scan removed edited weakened add cut is_deleted is_test asserts checks rands max_timeout
    pins_seed covers
weaker_findings = refl

scan-AllHarmless_example : (scan weaker ≡ []) ↔ AllHarmless weaker.files
scan-AllHarmless_example = scan-AllHarmless weaker
