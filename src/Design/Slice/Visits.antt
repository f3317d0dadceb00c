-- ===== src/Design/Slice/Visits.antt =====
-- chipchamp/design/cone.py: what a round of the walk adds, if the walk is not cut short.
use mathlib.Core.List.{Memᴰ, append_assoc, append-nil}
use mathlib.Core.List.Memᴰ
use chipchamp.Prelude.{
  ◌≡◌, refl, sym, ap, subst, ◌∙◌, ℕ, inl, inr, Bool, true, false, Option, List, [], ◌∷◌, ◌++◌, map,
  choose, Bool-cases, false_is_true, if◌then◌else◌,
}
use chipchamp.Text.{Text, text_eq, text_eq_sound}
use chipchamp.Gather.{gather}
use chipchamp.Design.Cone.{Driver, SignalInfo, mem, roots}
use chipchamp.Design.Slice.{State, add_stmt, behind, add_drivers, note, visit_one, visit}

-- a step that goes on
stops :
    (b : Bool) (x y : State)
    → x.truncated ≡ b
    → (if b then x else y).truncated ≡ false
    → (b ≡ false) × ((if b then x else y) ≡ y)
stops true x y e h = absurd (false_is_true (sym h ∙ e))
stops false x y e h = (refl, refl)

quiet_rest :
    (x y : State)
    → (if x.truncated then x else y).truncated ≡ false
    → (x.truncated ≡ false) × ((if x.truncated then x else y) ≡ y)
quiet_rest x y h = stops x.truncated x y refl h

abbrev pub names : List SignalInfo → List Text
names is = map {A = SignalInfo} (λ i. i.name) is

-- the signals of a frontier that were not seen, each once
abbrev pub news : List Text → List Text → List Text
news [] seen = []
news (s ∷ ss) seen = if mem s seen then news ss seen else s ∷ news ss (seen ++ s ∷ [])

news_cons :
    (s : Text) (ss seen : List Text)
    → news (s ∷ ss) seen ≡ news (s ∷ []) seen ++ news ss (seen ++ news (s ∷ []) seen)
news_cons s ss seen = elim (Bool-cases (mem s seen)) [
  | inl e ↦ rw (e, append-nil seen)
  | inr e ↦ rw e
]

names-append : (a b : List SignalInfo) → names (a ++ b) ≡ names a ++ names b
names-append [] b = refl
names-append (i ∷ is) b = ap (λ l. i.name ∷ l) (names-append is b)

gather-append :
    (f : Text → List Text) (xs ys : List Text) → gather f (xs ++ ys) ≡ gather f xs ++ gather f ys
gather-append f [] ys = refl
gather-append f (x ∷ xs) ys =
    ap (λ l. f x ++ l) (gather-append f xs ys)
    ∙ sym (append_assoc (f x) (gather f xs) (gather f ys))

joined :
    (a n tail : List Text) {one r : List Text}
    → one ≡ a ++ n
    → r ≡ one ++ tail
    → r ≡ a ++ (n ++ tail)
joined a n tail p q = q ∙ (ap (λ l. l ++ tail) p ∙ append_assoc a n tail)

-- the signals behind one
abbrev pub next : (Text → List Driver) → Text → List Text
next step s = gather (λ d. roots d.ups) (step s)

module _ (step : Text → List Driver) (domain_of : Text → Option Text) (max_stmts : ℕ) where
  record Added (ds : List Driver) (st r : State) : Type 0 where
    seen : r.seen ≡ st.seen
    signals : r.signals ≡ st.signals
    nxt : r.nxt ≡ st.nxt ++ gather (λ d. roots d.ups) ds

  -- a statement changes neither
  record Same (st r : State) : Type 0 where
    seen : r.seen ≡ st.seen
    signals : r.signals ≡ st.signals
    nxt : r.nxt ≡ st.nxt

  stmt-Same : (d : Driver) (st : State) → Same st (add_stmt step domain_of max_stmts d st)
  stmt-Same d st =
      choose {A = State} (λ r. Same st r) (mem (d.loc ++ b'|' ∷ d.text) st.keys) _ _
        (λ e. record { seen = refl; signals = refl; nxt = refl })
        (λ e. record { seen = refl; signals = refl; nxt = refl })

  drivers-Added :
      (ds : List Driver) (st : State)
      → (add_drivers step domain_of max_stmts ds st).truncated ≡ false
      → Added ds st (add_drivers step domain_of max_stmts ds st)
  unfolding add_drivers
  drivers-Added [] st h = record { seen = refl; signals = refl; nxt = sym (append-nil st.nxt) }
  drivers-Added (d ∷ ds) st h =
      let one = add_stmt step domain_of max_stmts d st in
      let same = stmt-Same d st in
      let (q, e) =
        quiet_rest one
          (add_drivers step domain_of max_stmts ds (behind step domain_of max_stmts d one)) h in
      let rest =
        drivers-Added ds (behind step domain_of max_stmts d one)
          (ap (λ (x : State). x.truncated) (sym e) ∙ h) in
      record {
        seen = ap (λ (x : State). x.seen) e ∙ (rest.seen ∙ same.seen);
        signals = ap (λ (x : State). x.signals) e ∙ (rest.signals ∙ same.signals);
        nxt =
            ap (λ (x : State). x.nxt) e
            ∙ (rest.nxt
                ∙ (append_assoc one.nxt (roots d.ups) (gather (λ d. roots d.ups) ds)
                    ∙ ap (λ l. l ++ (roots d.ups ++ gather (λ d. roots d.ups) ds)) same.nxt));
      }

  pub record Visited (ss : List Text) (st r : State) : Type 0 where
    pub seen : r.seen ≡ st.seen ++ news ss st.seen
    pub listed : names r.signals ≡ names st.signals ++ news ss st.seen
    pub nxt : r.nxt ≡ st.nxt ++ gather (next step) (news ss st.seen)

  one-Visited :
      (s : Text) (st : State) (b : Bool)
      → mem s st.seen ≡ b
      → (if b
          then st
          else add_drivers step domain_of max_stmts
              (step s)
              (note step domain_of max_stmts s st)).truncated
        ≡ false
      → Visited (s ∷ []) st (
          if b
          then st
          else add_drivers step domain_of max_stmts (step s) (note step domain_of max_stmts s st))
  one-Visited s st true e h = record {
    seen = rw e (sym (append-nil st.seen));
    listed = rw e (sym (append-nil (names st.signals)));
    nxt = rw e (sym (append-nil st.nxt));
  }
  one-Visited s st false e h =
      let a = drivers-Added (step s) (note step domain_of max_stmts s st) h in
      record {
        seen = rw e a.seen;
        listed = rw e (ap names a.signals ∙ names-append st.signals _);
        nxt = rw e (a.nxt ∙ ap (λ l. st.nxt ++ l) (sym (append-nil (next step s))));
      }

  join-Visited :
      (s : Text) (ss : List Text) (st one r : State)
      → Visited (s ∷ []) st one
      → Visited ss one r
      → Visited (s ∷ ss) st r
  join-Visited s ss st one r v w =
      let n = news (s ∷ []) st.seen in
      let all : n ++ news ss one.seen ≡ news (s ∷ ss) st.seen =
        ap (λ l. n ++ news ss l) v.seen ∙ sym (news_cons s ss st.seen) in
      record {
        seen = joined st.seen n (news ss one.seen) v.seen w.seen ∙ ap (λ l. st.seen ++ l) all;
        listed =
            joined (names st.signals) n (news ss one.seen) v.listed w.listed
            ∙ ap (λ l. names st.signals ++ l) all;
        nxt =
            joined st.nxt (gather (next step) n) (gather (next step) (news ss one.seen)) v.nxt w.nxt
            ∙ ap (λ l. st.nxt ++ l)
                (sym (gather-append (next step) n (news ss one.seen))
                  ∙ ap (λ l. gather (next step) l) all);
      }

  pub visit-Visited :
      (ss : List Text) (st : State)
      → (visit step domain_of max_stmts ss st).truncated ≡ false
      → Visited ss st (visit step domain_of max_stmts ss st)
  unfolding visit
  visit-Visited [] st h = record {
    seen = sym (append-nil st.seen);
    listed = sym (append-nil (names st.signals));
    nxt = sym (append-nil st.nxt);
  }
  visit-Visited (s ∷ ss) st h =
      let one = visit_one step domain_of max_stmts s st in
      let (q, e) = quiet_rest one (visit step domain_of max_stmts ss one) h in
      let rest = visit-Visited ss one (ap (λ (x : State). x.truncated) (sym e) ∙ h) in
      subst (λ r. Visited (s ∷ ss) st r) (sym e)
        (join-Visited s ss st one _ (one-Visited s st (mem s st.seen) refl q) rest)

pub mem-in : (t : Text) (ts : List Text) → mem t ts ≡ true → Memᴰ t ts
mem-in t [] h = absurd (false_is_true h)
mem-in t (u ∷ us) h = elim (Bool-cases (text_eq t u)) [
  | inl e ↦ Memᴰ.head (text_eq_sound t u e)
  | inr e ↦ Memᴰ.tail (mem-in t us (rw e at h))
]

-- A frontier is seen or new, and what is new is of the frontier.
pub seen_or_new : (ss seen : List Text) {t : Text} → Memᴰ t ss → Memᴰ t (seen ++ news ss seen)
seen_or_new [] seen m = elim m [ ]
seen_or_new (s ∷ ss) seen {t} (Memᴰ.head e) = elim (Bool-cases (mem s seen)) [
  | inl h ↦ Memᴰ.append_left _ (Memᴰ.cast e (mem-in s seen h))
  | inr h ↦ Memᴰ.append_right seen (rw h (Memᴰ.head e))
]
seen_or_new (s ∷ ss) seen {t} (Memᴰ.tail m) = elim (Bool-cases (mem s seen)) [
  | inl h ↦ rw h (seen_or_new ss seen m)
  | inr h ↦ rw h (
      subst (λ l. Memᴰ t l) (append_assoc seen (s ∷ []) (news ss (seen ++ s ∷ [])))
        (seen_or_new ss (seen ++ s ∷ []) m))
]

pub news-of : (ss seen : List Text) {t : Text} → Memᴰ t (news ss seen) → Memᴰ t ss
news-of [] seen m = elim m [ ]
news-of (s ∷ ss) seen {t} m = elim (Bool-cases (mem s seen)) [
  | inl h ↦ Memᴰ.tail (news-of ss seen (rw h at m))
  | inr h ↦ elim (Memᴰ.cases_cons (rw h at m)) [
    | inl e ↦ Memᴰ.head e
    | inr k ↦ Memᴰ.tail (news-of ss (seen ++ s ∷ []) k)
  ]
]
