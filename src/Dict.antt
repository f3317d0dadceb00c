-- ===== src/Dict.antt =====
-- Python's `dict` with text keys: insertion order, an update keeps its key's place.
pub mod Laws
use chipchamp.Prelude.{Option, none, some, List, [], ◌∷◌, map, if◌then◌else◌}
use chipchamp.Text.{Text, text_eq}

abbrev pub Dict {ℓ} : Type ℓ → Type ℓ
Dict V = List (Text × V)

module _ {ℓ} {V : Type ℓ} where
  unfoldable pub get : Text → Dict V → Option V
  get k [] = none
  get k ((j, v) ∷ d) = if text_eq j k then some v else get k d

  unfoldable pub put : Text → V → Dict V → Dict V
  put k v [] = (k, v) ∷ []
  put k v ((j, w) ∷ d) = if text_eq j k then (j, v) ∷ d else (j, w) ∷ put k v d

  abbrev pub values : Dict V → List V
  values d = map (λ e. e.1) d

  abbrev pub keys : Dict V → List Text
  keys d = map (λ e. e.0) d

  -- `d.update(e)`
  unfoldable pub update : Dict V → Dict V → Dict V
  unfolding put
  update d [] = d
  update d ((k, v) ∷ e) = update (put k v d) e
