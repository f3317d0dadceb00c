-- ===== src/Agent/Router/Pool.antt =====
-- chipchamp/agent/router.py: the ranking has the models of the pool, and no others.
use chipchamp.Prelude.{
  Bool, true, false, not, ◌&&◌, ◌||◌, ◌≡◌, refl, sym, ap, ◌∙◌, subst, Option, none, some, List, [],
  ◌∷◌, ◌++◌, if◌then◌else◌,
}
use chipchamp.Text.{Text, text_eq, text_eq_sound}
use chipchamp.Dict.{Dict, get}
use chipchamp.Agent.Router.{
  ModelProfile, RouterConfig, insert_ref, sort_refs, member, keep, chained, by_chain, rank,
}

or_swap : (a b c : Bool) → (a || (b || c)) ≡ (b || (a || c))
or_swap true true c = refl
or_swap true false c = refl
or_swap false true c = refl
or_swap false false c = refl

and_false : (a : Bool) → (a && false) ≡ false
and_false true = refl
and_false false = refl

or_assoc : (a b c : Bool) → ((a || b) || c) ≡ (a || (b || c))
or_assoc true b c = refl
or_assoc false b c = refl

member-if :
    (x : Text) (b : Bool) (rs ss : List Text)
    → member x (if b then rs else ss) ≡ (if b then member x rs else member x ss)
member-if x true rs ss = refl
member-if x false rs ss = refl

same : (b : Bool) (u v w : Bool) → u ≡ w → v ≡ w → (if b then u else v) ≡ w
same true u v w p q = p
same false u v w p q = q

member-insert_ref :
    (below : Text → Text → Bool) (x r : Text) (ss : List Text)
    → member x (insert_ref below r ss) ≡ (text_eq x r || member x ss)
unfolding insert_ref
member-insert_ref below x r [] = refl
member-insert_ref below x r (s ∷ ss) =
    member-if x (below r s) _ _
    ∙ same (below r s) _ _ _
        (ap (λ m. text_eq x s || m) (member-insert_ref below x r ss)
          ∙ or_swap (text_eq x s) (text_eq x r) (member x ss))
        refl

member-sort_refs :
    (below : Text → Text → Bool) (x : Text) (rs : List Text)
    → member x (sort_refs below rs) ≡ member x rs
unfolding sort_refs
member-sort_refs below x [] = refl
member-sort_refs below x (r ∷ rs) =
    member-insert_ref below x r (sort_refs below rs)
    ∙ ap (λ m. text_eq x r || m) (member-sort_refs below x rs)

member-append : (x : Text) (rs ss : List Text) → member x (rs ++ ss) ≡ (member x rs || member x ss)
member-append x [] ss = refl
member-append x (r ∷ rs) ss =
    ap (λ m. text_eq x r || m) (member-append x rs ss)
    ∙ sym (or_assoc (text_eq x r) (member x rs) (member x ss))

-- one more model before those that are kept
kept :
    (e p q m : Bool) → (e ≡ true → p ≡ q) → (if p then e || (q && m) else q && m) ≡ (q && (e || m))
kept true p true m h = subst (λ b. (if b then true else m) ≡ true) (sym (h refl)) refl
kept true p false m h = subst (λ b. (if b then true else false) ≡ false) (sym (h refl)) refl
kept false true q m h = refl
kept false false q m h = refl

member-keep :
    (x : Text) (p : Text → Bool) (rs : List Text) → member x (keep p rs) ≡ (p x && member x rs)
unfolding keep
member-keep x p [] = sym (and_false (p x))
member-keep x p (r ∷ rs) =
    member-if x (p r) _ _
    ∙ ap (λ m. if p r then text_eq x r || m else m) (member-keep x p rs)
    ∙ kept (text_eq x r) (p r) (p x) (member x rs) (λ e. ap p (sym (text_eq_sound x r e)))

either_way : (p c : Bool) → ((p && c) || (not (p && c) && p)) ≡ p
either_way true true = refl
either_way true false = refl
either_way false c = refl

member-chained : (x : Text) (chain pool : List Text) → member x (chained chain pool) ≡ member x pool
unfolding chained
member-chained x chain pool =
    let ranked = keep (λ r. member r pool) chain in
    member-append x ranked _
    ∙ ap (λ m. member x ranked || m) (member-keep x (λ r. not (member r ranked)) pool)
    ∙ ap (λ m. m || (not m && member x pool)) (member-keep x (λ r. member r pool) chain)
    ∙ either_way (member x pool) (member x chain)

member-by_chain :
    (x : Text) (o : Option (List Text)) (pool sorted : List Text)
    → member x sorted ≡ member x pool
    → member x (by_chain o pool sorted) ≡ member x pool
member-by_chain x none pool sorted h = h
member-by_chain x (some []) pool sorted h = h
member-by_chain x (some (r ∷ rs)) pool sorted h = member-chained x (r ∷ rs) pool

pub member-rank :
    (cfg : RouterConfig) (profiles : Dict ModelProfile) (need x : Text)
    → member x (rank cfg profiles need) ≡ member x cfg.pool
unfolding rank
member-rank cfg profiles need x =
    member-by_chain x (get need cfg.chains) cfg.pool _ (member-sort_refs _ x cfg.pool)
