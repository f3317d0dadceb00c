-- ===== src/Policy/Classify/Examples.antt =====
-- Classification on small change sets.
use chipchamp.Prelude.{◌≡◌, refl, true, false, not, ◌&&◌, [], ◌∷◌}
use chipchamp.Text.{codes}
use chipchamp.Fnmatch.{fnmatch}
use chipchamp.Policy.Diff.{
  Diff, change, is_rtl, is_tb, is_doc, is_regmap_source, is_build_script, in_globs,
}
use chipchamp.Policy.Classify.Clocks.{touches_domains}
use chipchamp.Policy.Classify.Order.{Top, classify-Top}
use chipchamp.Policy.Classify.Intents.{moves, lists, classify_all-intents}
use chipchamp.Policy.Classify.{
  has, cdc, docs, regmap, rtl_nfc, rtl_functional, riscv, timing, rank, candidate, candidates,
  has_rtl, intents, sorted_set, found, classify_all, classify,
}

abbrev rtl_edit : Diff
rtl_edit = record {
  files = change (codes "rtl/core.sv") ∷ change (codes "docs/notes.md") ∷ [];
  declared_nfc = true;
  declared_cdc = false;
  declared_timing = false;
}

rtl_edit_classes :
    (classify_all rtl_edit [] false ≡ docs ∷ rtl_nfc ∷ [])
    × (classify_all (record rtl_edit { declared_timing = true }) [] true
        ≡ docs ∷ rtl_functional ∷ riscv ∷ timing ∷ [])
    × (classify rtl_edit (codes "rtl/*" ∷ []) false ≡ regmap)
unfolding classify classify_all found candidates candidate has_rtl intents sorted_set rank is_rtl
    is_tb is_doc is_regmap_source is_build_script in_globs fnmatch touches_domains
rtl_edit_classes = (refl, refl, refl)

classify-Top_example : Top (classify_all rtl_edit [] true) (classify rtl_edit [] true)
classify-Top_example = classify-Top rtl_edit [] true

classify_all-intents_example :
    let cs = classify_all rtl_edit [] true in
    let rtl = has_rtl [] rtl_edit.files in
    let nfc = true && not (moves rtl_edit [] true) && not false in
    (has cdc cs ≡ (rtl && moves rtl_edit [] true))
    × (has timing cs ≡ (rtl && false))
    × (has riscv cs ≡ (rtl && true))
    × (has rtl_nfc cs ≡ (rtl && nfc))
    × (has rtl_functional cs ≡ (lists rtl_edit [] true rtl_functional && not (rtl && nfc)))
classify_all-intents_example = classify_all-intents rtl_edit [] true
