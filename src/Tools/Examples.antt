-- ===== src/Tools/Examples.antt =====
-- A workspace in which a link leads to the waivers.
use chipchamp.Prelude.{◌≡◌, refl, true, false, [], ◌∷◌, if◌then◌else◌}
use chipchamp.Text.{Text, codes, text_eq}
use chipchamp.Policy.Canonical.{canonical, outside, isabs}
use chipchamp.Policy.Engine.{PolicyEngine, default_protected}
use chipchamp.Tools.Paths.{ws_path, refused, absolute_path, escapes, path_join, below}
use chipchamp.Tools.Paths.Opened.{
  Means, IsOpened, IsProtected, ws_path-IsOpened, ws_path-unprotected,
}

abbrev engine : PolicyEngine
engine = record {
  acl = record { deny = []; allow = []; use_defaults = true };
  autonomy_rules = [];
  default_autonomy = "L1";
  protected_paths = default_protected (codes ".chipchamp" ∷ []);
  generated = [];
  riscv_core = false;
}

-- `notes` is a link to a file of the waivers.
abbrev real : Text → Text
real p = if text_eq p (codes "/w/notes") then codes "/w/waivers/lint.yaml" else p

ws_path-IsOpened_example :
    Means
      (ws_path real (codes "/w") engine (codes "rtl/a.sv") false false)
      (λ a t. IsOpened real (codes "/w") engine (codes "rtl/a.sv") false false a t)
ws_path-IsOpened_example = ws_path-IsOpened real (codes "/w") engine (codes "rtl/a.sv") false false

ws_path-unprotected_example :
    Means
      (ws_path real (codes "/w") engine (codes "rtl/a.sv") true true)
      (λ a t. ¬ IsProtected (canonical (codes "rtl/a.sv")) × ¬ IsProtected t)
ws_path-unprotected_example =
    ws_path-unprotected real (codes "/w") engine (codes "rtl/a.sv") true refl

ws_path_example :
    (ws_path real (codes "/w") engine (codes "a/../../b") false false ≡ refused escapes)
    × (ws_path real (codes "/w") engine (codes "/etc/passwd") false false ≡ refused absolute_path)
    × (ws_path real (codes "/w") engine (codes "../notes") true true ≡ refused escapes)
    × (below (codes "/w") (real (path_join (codes "/w") (codes "notes")))
        ≡ codes "waivers/lint.yaml")
unfolding ws_path outside canonical isabs path_join below
ws_path_example = (refl, refl, refl, refl)
