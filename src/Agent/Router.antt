-- ===== src/Agent/Router.antt =====
-- chipchamp/agent/router.py and chipchamp/agent/model_profiles.py: which model of the pool is tried
-- first, and which one next. A score counts hundredths, exactly; the table of the profiles that
-- `load_profiles` makes is an argument. Chains and pools have each model as often as the lists do.
pub mod Fallback
pub mod Pool
use chipchamp.Prelude.{
  ℕ, ◌+◌, Bool, true, false, not, ◌&&◌, ◌||◌, Option, none, some, List, [], ◌∷◌, ◌++◌, ltb, ◌==◌,
  if◌then◌else◌,
}
use chipchamp.Text.{Text, codes, text_eq, starts_with, is_empty, any}
use chipchamp.Dict.{Dict, get}

pub record ModelProfile : Type 0 where
  pub scores : Dict ℕ
  pub failure_modes : List Text

abbrev failure_demerits : Dict ℕ
failure_demerits =
    (codes "refuses", 90)
    ∷ (codes "narrates", 10)
    ∷ (codes "fabricates", 10)
    ∷ (codes "premature_ship", 10)
    ∷ (codes "no_reuse", 15)
    ∷ (codes "slow", 0)
    ∷ []

abbrev neutral : ℕ
neutral = 50

abbrev or_else : ℕ → Option ℕ → ℕ
or_else n none = n
or_else n (some m) = m

unfoldable pub score : ModelProfile → Text → ℕ
unfolding get
score p need = or_else neutral (get need p.scores)

abbrev pub sum_demerits : List Text → ℕ
unfolding get
sum_demerits [] = 0
sum_demerits (f ∷ fs) = or_else 0 (get f failure_demerits) + sum_demerits fs

unfoldable pub demerit : ModelProfile → ℕ
demerit p = sum_demerits p.failure_modes

-- `a.effective(need) < b.effective(need)`: the score less the demerits, which may be below 0
unfoldable pub less_effective : Text → ModelProfile → ModelProfile → Bool
less_effective need a b = ltb (score a need + demerit b) (score b need + demerit a)

-- the order of the keys of `rank`: effective score, then speed
unfoldable pub worse : Text → ModelProfile → ModelProfile → Bool
worse need a b =
    less_effective need a b
    || not (less_effective need b a) && ltb (score a (codes "speed")) (score b (codes "speed"))

abbrev frontier : ModelProfile
frontier = record {
  scores =
      (codes "rtl_author", 90)
      ∷ (codes "debugger", 90)
      ∷ (codes "planner", 90)
      ∷ (codes "verifier", 90)
      ∷ (codes "speed", 80)
      ∷ [];
  failure_modes = [];
}

abbrev frontier_prefixes : List Text
frontier_prefixes =
    codes "anthropic:" ∷ codes "openai:gpt-4" ∷ codes "openai:o1" ∷ codes "openai:o3" ∷ []

-- the profile of a model that the table, which begins with the built-in ones, does not have
unfoldable pub default_profile : Text → ModelProfile
unfolding starts_with
default_profile ref =
    if any (λ p. starts_with ref p) frontier_prefixes
    then frontier
    else record { scores = []; failure_modes = [] }

abbrev found : Text → Option ModelProfile → ModelProfile
found ref none = default_profile ref
found ref (some p) = p

unfoldable pub profile : Dict ModelProfile → Text → ModelProfile
unfolding get
profile profiles ref = found ref (get ref profiles)

-- `sorted(..., reverse=True)`, which keeps the order of equal keys
unfoldable pub insert_ref : (Text → Text → Bool) → Text → List Text → List Text
insert_ref below r [] = r ∷ []
insert_ref below r (s ∷ ss) =
    let rest = insert_ref below r ss in if below r s then s ∷ rest else r ∷ s ∷ ss

unfoldable pub sort_refs : (Text → Text → Bool) → List Text → List Text
sort_refs below [] = []
sort_refs below (r ∷ rs) = insert_ref below r (sort_refs below rs)

abbrev pub member : Text → List Text → Bool
member r rs = any (λ s. text_eq r s) rs

unfoldable pub keep : (Text → Bool) → List Text → List Text
keep p [] = []
keep p (r ∷ rs) = let rest = keep p rs in if p r then r ∷ rest else rest

-- `ranked` grows while the rest of the pool is looked at: the list is read before it is extended.
unfoldable pub chained : List Text → List Text → List Text
chained chain pool =
    let ranked = keep (λ r. member r pool) chain in ranked ++ keep (λ r. not (member r ranked)) pool

pub record RouterConfig : Type 0 where
  pub pool : List Text
  pub chains : Dict (List Text)

abbrev pub by_chain : Option (List Text) → List Text → List Text → List Text
by_chain none pool sorted = sorted
by_chain (some []) pool sorted = sorted
by_chain (some (r ∷ rs)) pool sorted = chained (r ∷ rs) pool

unfoldable pub rank : RouterConfig → Dict ModelProfile → Text → List Text
unfolding get chained
rank cfg profiles need =
    by_chain (get need cfg.chains) cfg.pool
      (sort_refs (λ r s. worse need (profile profiles r) (profile profiles s)) cfg.pool)

abbrev head_of : List Text → Option Text
head_of [] = none
head_of (r ∷ rs) = some r

pub pick : RouterConfig → Dict ModelProfile → Text → Option Text
unfolding rank
pick cfg profiles need = head_of (rank cfg profiles need)

unfoldable pub first_untried : Text → List Text → List Text → Option Text
unfolding text_eq
first_untried current tried [] = none
first_untried current tried (r ∷ rs) =
    let rest = first_untried current tried rs in
    if not (text_eq r current) && not (member r tried) then some r else rest

unfoldable pub next_fallback :
    RouterConfig → Dict ModelProfile → Text → Text → List Text → Option Text
unfolding rank
next_fallback cfg profiles current need tried = first_untried current tried (rank cfg profiles need)

-- `need_for_task` and `need_for_phase`
abbrev or_author : Option Text → Text
or_author none = codes "rtl_author"
or_author (some t) = t

pub need_for_task : Text → Text
unfolding get
need_for_task task_class = or_author (
    get task_class (
      (codes "docs", codes "planner")
      ∷ (codes "tb_only", codes "verifier")
      ∷ (codes "build_scripts", codes "planner")
      ∷ (codes "regmap", codes "rtl_author")
      ∷ (codes "rtl_nfc", codes "rtl_author")
      ∷ (codes "rtl_functional", codes "rtl_author")
      ∷ (codes "timing", codes "debugger")
      ∷ (codes "cdc", codes "debugger")
      ∷ (codes "physical", codes "verifier")
      ∷ (codes "efpga-fabulous", codes "rtl_author")
      ∷ (codes "fpga", codes "rtl_author")
      ∷ []))

pub need_for_phase : Text → Text
unfolding get
need_for_phase phase = or_author (
    get phase (
      (codes "plan", codes "planner")
      ∷ (codes "author", codes "rtl_author")
      ∷ (codes "debug", codes "debugger")
      ∷ (codes "verify", codes "verifier")
      ∷ []))
