-- ===== src/Design/Names/Tests.antt =====
-- Numbers, calls, keywords and system tasks are no signals.
use chipchamp.Prelude.{◌≡◌, refl, [], ◌∷◌}
use chipchamp.Text.{codes}
use chipchamp.Design.Names.{signal_names}

signal_names_example :
    (signal_names (codes "a & 8'hFF | $clog2(b) + f (c[3], _d)")
      ≡ codes "a" ∷ codes "b" ∷ codes "c" ∷ codes "_d" ∷ [])
    × (signal_names (codes "default ? 'sb1 : posedge x1") ≡ codes "x1" ∷ [])
unfolding signal_names
signal_names_example = (refl, refl)
