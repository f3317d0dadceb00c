-- ===== src/Design/Domains/Owners.antt =====
-- chipchamp/design/domains.py: the domain that `infer_domains` gives to a signal.
use chipchamp.Prelude.{
  ◌≡◌, refl, sym, ap, subst, ◌∙◌, Bool, true, false, ◌||◌, Option, none, some, List, [], ◌∷◌,
  if◌then◌else◌,
}
use chipchamp.Text.{Text, text_eq, text_eq_sound, text_eq_sym, any}
use chipchamp.Dict.{Dict, get, put}
use chipchamp.Dict.Laws.{Keyed, or_else, get-put, get-update}
use chipchamp.Design.{AlwaysBlock, Module}
use chipchamp.Design.Domains.{
  DomainMap, clock_of, assign_domains, take_block, take_blocks, or_given, infer_domains,
}

abbrev assigns : Text → AlwaysBlock → Bool
assigns s b = any (λ t. text_eq s t) b.lhs

abbrev clock_or : Text → Option Text → AlwaysBlock → Option Text → Option Text
clock_or s before b none = before
clock_or s before b (some c) = if assigns s b then some c else before

-- the clock of the last block with a clock that assigns a signal, or else the one before
unfoldable pub last_clock : Text → Option Text → List AlwaysBlock → Option Text
last_clock s before [] = before
last_clock s before (b ∷ bs) = last_clock s (clock_or s before b (clock_of b)) bs

-- the override of a signal, or else the clock of the last block that assigns it
abbrev pub owner : Module → Dict Text → Text → Option Text
owner m overrides s = or_else (get s overrides) (last_clock s none m.always_blocks)

pick :
    (later now : Bool) (x y z : Option Text)
    → (now ≡ true → y ≡ x)
    → (if later then x else (if now then y else z)) ≡ (if now || later then x else z)
pick true true x y z h = refl
pick true false x y z h = refl
pick false true x y z h = h refl
pick false false x y z h = refl

own_clock :
    (overrides : Dict Text) (clock s t : Text)
    → get s overrides ≡ none
    → text_eq t s ≡ true
    → some (or_given clock (get t overrides)) ≡ some clock
own_clock overrides clock s t h e =
    rw (subst (λ u. get u overrides ≡ none) (sym (text_eq_sound t s e)) h)

assigned :
    (overrides : Dict Text) (clock s : Text) (ss : List Text) (d : Dict Text)
    → get s overrides ≡ none
    → get s (assign_domains overrides clock ss d)
      ≡ (if any (λ t. text_eq s t) ss then some clock else get s d)
unfolding assign_domains
assigned overrides clock s [] d h = refl
assigned overrides clock s (t ∷ ts) d h =
    assigned overrides clock s ts (put t (or_given clock (get t overrides)) d) h
    ∙ rw (get-put s t (or_given clock (get t overrides)) d) (
        rw (text_eq_sym s t)
          (pick (any (λ u. text_eq s u) ts) (text_eq t s) _ _ _ (own_clock overrides clock s t h)))

taken :
    (overrides : Dict Text) (s : Text) (b : AlwaysBlock) (o : Option Text) (dm : DomainMap)
    → get s overrides ≡ none
    → get s (take_block overrides b o dm).signal_domain ≡ clock_or s (get s dm.signal_domain) b o
taken overrides s b none dm h = refl
taken overrides s b (some c) dm h = assigned overrides c s b.lhs dm.signal_domain h

all_taken :
    (overrides : Dict Text) (s : Text) (bs : List AlwaysBlock) (dm : DomainMap)
    → get s overrides ≡ none
    → get s (take_blocks overrides bs dm).signal_domain ≡ last_clock s (get s dm.signal_domain) bs
unfolding take_blocks last_clock
all_taken overrides s [] dm h = refl
all_taken overrides s (b ∷ bs) dm h =
    all_taken overrides s bs (take_block overrides b (clock_of b) dm) h
    ∙ ap (λ o. last_clock s o bs) (taken overrides s b (clock_of b) dm h)

or_else-agree : (o a b : Option Text) → (o ≡ none → a ≡ b) → or_else o a ≡ or_else o b
or_else-agree none a b h = h refl
or_else-agree (some v) a b h = refl

-- A signal belongs to its override, or else to the clock of the last sequential block that assigns it.
pub infer_domains-owner :
    (m : Module) (overrides : Dict Text) (s : Text)
    → Keyed overrides
    → get s (infer_domains m overrides).signal_domain ≡ owner m overrides s
unfolding infer_domains get
infer_domains-owner m overrides s h =
    get-update s _ overrides h
    ∙ or_else-agree (get s overrides) _ _ (λ e. all_taken overrides s m.always_blocks _ e)
