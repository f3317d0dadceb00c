-- ===== src/Agent/Router/Fallback.antt =====
-- chipchamp/agent/router.py: the fallback is a model of the pool that was not tried yet.
use chipchamp.Prelude.{
  Bool, true, false, not, ◌&&◌, ◌||◌, ◌≡◌, refl, sym, ap, ap₂, ◌∙◌, Option, none, some, List, [],
  ◌∷◌, if◌then◌else◌,
}
use chipchamp.Text.{Text, text_eq, text_eq_sound, text_eq_refl}
use chipchamp.Dict.{Dict}
use chipchamp.Agent.Router.{ModelProfile, RouterConfig, member, rank, first_untried, next_fallback}
use chipchamp.Agent.Router.Pool.{member-rank}

-- the current model, or one that was tried
abbrev pub is_spent : Text → List Text → Text → Bool
is_spent current tried x = text_eq x current || member x tried

-- The answer is in the list and not spent; without one, all of the list is spent.
abbrev pub Untried : Text → List Text → List Text → Option Text → Type 0
Untried current tried rs none = (x : Text) → member x rs ≡ true → is_spent current tried x ≡ true
Untried current tried rs (some r) = (member r rs ≡ true) × (is_spent current tried r ≡ false)

or_true : (a : Bool) → (a || true) ≡ true
or_true true = refl
or_true false = refl

here_or_there :
    (current : Text) (tried : List Text) (x r : Text) (e m : Bool)
    → text_eq x r ≡ e
    → (e || m) ≡ true
    → is_spent current tried r ≡ true
    → (m ≡ true → is_spent current tried x ≡ true)
    → is_spent current tried x ≡ true
here_or_there current tried x r true m e h spent later =
    ap (λ y. is_spent current tried y) (text_eq_sound x r e) ∙ spent
here_or_there current tried x r false m e h spent later = later h

past :
    (current : Text) (tried : List Text) (r : Text) (rs : List Text) (o : Option Text)
    → is_spent current tried r ≡ true
    → Untried current tried rs o
    → Untried current tried (r ∷ rs) o
past current tried r rs none spent u =
    λ x h. here_or_there current tried x r (text_eq x r) (member x rs) refl h spent (u x)
past current tried r rs (some y) spent u =
    (ap (λ m. text_eq y r || m) u.0 ∙ or_true (text_eq y r), u.1)

turn :
    (current : Text) (tried : List Text) (r : Text) (rs : List Text) (o : Option Text) (a b : Bool)
    → text_eq r current ≡ a
    → member r tried ≡ b
    → Untried current tried rs o
    → Untried current tried (r ∷ rs) (if not a && not b then some r else o)
turn current tried r rs o false false p q u =
    (ap (λ m. m || member r rs) (text_eq_refl r), ap₂ (λ a b. a || b) p q)
turn current tried r rs o false true p q u = past current tried r rs o (ap₂ (λ a b. a || b) p q) u
turn current tried r rs o true b p q u =
    past current tried r rs o (ap (λ a. a || member r tried) p) u

first_untried-Untried :
    (current : Text) (tried rs : List Text)
    → Untried current tried rs (first_untried current tried rs)
unfolding first_untried
first_untried-Untried current tried [] = λ x h. cc
first_untried-Untried current tried (r ∷ rs) =
    turn current tried r rs _ (text_eq r current) (member r tried) refl refl
      (first_untried-Untried current tried rs)

same_list :
    (current : Text) (tried rs ss : List Text) (o : Option Text)
    → ((x : Text) → member x rs ≡ member x ss)
    → Untried current tried rs o
    → Untried current tried ss o
same_list current tried rs ss none e u = λ x h. u x (e x ∙ h)
same_list current tried rs ss (some r) e u = (sym (e r) ∙ u.0, u.1)

-- Whatever the scores and the chains, the fallback is a model of the pool that is neither the
-- current one nor tried, and if there is none, every model of the pool is the current one or tried.
pub next_fallback-Untried :
    (cfg : RouterConfig) (profiles : Dict ModelProfile) (current need : Text) (tried : List Text)
    → Untried current tried cfg.pool (next_fallback cfg profiles current need tried)
unfolding next_fallback
next_fallback-Untried cfg profiles current need tried =
    same_list current tried (rank cfg profiles need) cfg.pool _
      (λ x. member-rank cfg profiles need x)
      (first_untried-Untried current tried (rank cfg profiles need))
