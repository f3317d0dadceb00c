-- ===== src/Policy/Autonomy/Examples.antt =====
-- A change of two paths under two rules.
use chipchamp.Prelude.{String, ℕ, ◌≤◌, ◌≡◌, ◌↔◌, true, none, some, [], ◌∷◌}
use chipchamp.Text.{Text, codes}
use chipchamp.Policy.Autonomy.{Rules, dict, plain, rank, decide, resolve_level}
use chipchamp.Policy.Autonomy.Caps.{AtEach, levels, decide-levels}
use chipchamp.Policy.Autonomy.Winner.{Answer, resolve_level-Answer}

abbrev rules : Rules
rules =
    (codes "docs/**", dict (some "L3")) ∷ (codes "**", plain "L2") ∷ (codes "rtl/*", dict none) ∷ []

abbrev notes : Text
notes = codes "docs/notes.md"

abbrev core : Text
core = codes "rtl/core.sv"

abbrev task_class : String
task_class = "docs"

decide-levels_example :
    let d = decide task_class (notes ∷ core ∷ []) rules "L1" in
    let at = λ (k : ℕ). AtEach (λ c. k ≤ rank c) (levels (notes ∷ core ∷ []) rules "L1") in
    ((d.may_edit ≡ true) ↔ at 1)
    × ((d.may_launch_jobs ≡ true) ↔ at 1)
    × ((d.may_open_mr ≡ true) ↔ at 2)
    × ((d.may_automerge ≡ true) ↔ ((task_class ≡ "docs") × at 3))
decide-levels_example = decide-levels task_class (notes ∷ core ∷ []) rules "L1"

resolve_level-Answer_example : Answer notes "L1" rules (resolve_level notes rules "L1")
resolve_level-Answer_example = resolve_level-Answer notes rules "L1"
