-- ===== src/Agent/WorkingSet/Compacted.antt =====
-- chipchamp/agent/working_set.py: `compact` keeps the recent messages and all turns that are not a
-- tool's, and touches pinned results only if all others do not make room enough.
use mathlib.Core.List.{append_assoc}
use chipchamp.Prelude.{
  choose, ℕ, zero, suc, ◌+◌, ◌≤◌, ◌<◌, ◌≡◌, refl, sym, subst, ◌∙◌, ◌⊎◌, inl, inr, Bool, true, false,
  ◌&&◌, List, [], ◌∷◌, ◌++◌, leb, arith, Bool-cases, leb→le, and_parts,
}
use chipchamp.Text.{Text}
use chipchamp.Dict.{Dict}
use chipchamp.Agent.Transcript.{Message, transcript_size}
use chipchamp.Agent.Digest.{Value, Loaded}
use chipchamp.Agent.WorkingSet.{
  is_tool_turn, swept, sweep, Swept, second, horizon_of, first_sweep, compact, Report,
}
use chipchamp.Agent.WorkingSet.Kept.{
  MessageKept, KeptUpTo, kept_refl, kept_trans, swept-MessageKept,
}

-- whether the answer of a sweep says the truth
abbrev Fits : ℕ → Swept → Type 0
Fits budget (out, (evicted, true)) = transcript_size out ≤ budget
Fits budget (out, (evicted, false)) = budget < transcript_size out

not-leb : (a b : ℕ) → leb a b ≡ false → b < a
not-leb a b h = ground arith

second_part : (a b : Bool) → a ≡ true → a && b ≡ false → b ≡ false
second_part true b h e = e
second_part false b h e = cc

module _ (loads : Text → Loaded) (dumps : Dict Value → Text) (fetched : List Text) where
  -- a sweep behind the messages that it has seen
  abbrev Behind : Bool → ℕ → List Message → List Message → Swept → Type 0
  Behind skip h seen ms o =
      (ns : List Message) × (o.0 ≡ seen ++ ns) × KeptUpTo loads dumps fetched skip h ms ns

  move_on :
      (skip : Bool) (h : ℕ) (seen ms : List Message) (m n : Message) (o : Swept)
      → MessageKept loads dumps fetched skip m n
      → Behind skip h (seen ++ n ∷ []) ms o
      → Behind skip (suc h) seen (m ∷ ms) o
  move_on skip h seen ms m n o k (ns, e, kept) =
      (n ∷ ns, e ∙ append_assoc seen (n ∷ []) ns, (k, kept))

  sweep-Behind :
      (skip : Bool) (budget h : ℕ) (seen ms : List Message) (evicted : ℕ)
      → Behind skip h seen ms (sweep loads dumps fetched skip budget h seen ms evicted)
  unfolding sweep
  sweep-Behind skip budget zero seen ms evicted = (ms, refl, refl)
  sweep-Behind skip budget (suc h) seen [] evicted = ([], refl, tt)
  sweep-Behind skip budget (suc h) seen (m ∷ ms) evicted =
      let n = (swept loads dumps fetched skip m).0 in
      let k = swept-MessageKept loads dumps fetched skip m in
      let count = evicted + (swept loads dumps fetched skip m).1 in
      choose {A = Swept} (λ o. Behind skip (suc h) seen (m ∷ ms) o)
        (is_tool_turn m.role m.content && leb (transcript_size (seen ++ n ∷ ms)) budget)
        (seen ++ n ∷ ms, (count, true))
        (sweep loads dumps fetched skip budget h (seen ++ n ∷ []) ms count)
        (λ e. (n ∷ ms, refl, (k, kept_refl loads dumps fetched skip h ms)))
        (λ e.
          move_on skip h seen ms m n
            (sweep loads dumps fetched skip budget h (seen ++ n ∷ []) ms count) k
            (sweep-Behind skip budget h (seen ++ n ∷ []) ms count))

  swept-other :
      (skip : Bool) (m : Message)
      → is_tool_turn m.role m.content ≡ false
      → (swept loads dumps fetched skip m).0 ≡ m
  unfolding swept
  swept-other skip m h =
      choose {A = Message × ℕ} (λ o. o.0 ≡ m) (is_tool_turn m.role m.content) _ _ (λ e. cc)
        (λ e. refl)

  -- after a turn without an answer the transcript is still too long
  still_long :
      (skip : Bool) (budget : ℕ) (seen ms : List Message) (m n : Message)
      → budget < transcript_size (seen ++ m ∷ ms)
      → (is_tool_turn m.role m.content ≡ false → n ≡ m)
      → is_tool_turn m.role m.content && leb (transcript_size (seen ++ n ∷ ms)) budget ≡ false
      → budget < transcript_size ((seen ++ n ∷ []) ++ ms)
  still_long skip budget seen ms m n long same e =
      subst (λ l. budget < transcript_size l) (sym (append_assoc seen (n ∷ []) ms))
        (elim (Bool-cases (is_tool_turn m.role m.content)) [
          | inl t ↦ not-leb _ _ (second_part _ _ t e)
          | inr f ↦ subst (λ k. budget < transcript_size (seen ++ k ∷ ms)) (sym (same f)) long
        ])

  sweep-Fits :
      (skip : Bool) (budget h : ℕ) (seen ms : List Message) (evicted : ℕ)
      → budget < transcript_size (seen ++ ms)
      → Fits budget (sweep loads dumps fetched skip budget h seen ms evicted)
  unfolding sweep
  sweep-Fits skip budget zero seen ms evicted long = long
  sweep-Fits skip budget (suc h) seen [] evicted long = long
  sweep-Fits skip budget (suc h) seen (m ∷ ms) evicted long =
      choose {A = Swept} (λ o. Fits budget o)
        (is_tool_turn m.role m.content
          && leb (transcript_size (seen ++ (swept loads dumps fetched skip m).0 ∷ ms)) budget)
        _ _ (λ e. leb→le _ _ (and_parts _ _ e).1)
        (λ e.
          sweep-Fits skip budget h (seen ++ (swept loads dumps fetched skip m).0 ∷ []) ms _
            (still_long skip budget seen ms m _ long (swept-other skip m) e))

  -- What `compact` makes of a transcript: itself, if it fits; or one that fits, with the pinned
  -- results kept; or else one with nothing but the other parts kept, if pinned results had to go.
  abbrev pub Compacted : ℕ → ℕ → List Message → List Message → Type 0
  Compacted budget keep_recent t out =
      let h = horizon_of t keep_recent in
      ((transcript_size t ≤ budget) × (out ≡ t))
      ⊎ (((transcript_size out ≤ budget) × KeptUpTo loads dumps fetched true h t out)
          ⊎ ((budget < transcript_size (first_sweep loads dumps fetched budget keep_recent t).0)
              × KeptUpTo loads dumps fetched false h t out))

  seconded :
      (budget keep_recent : ℕ) (t : List Message) (o : Swept)
      → o ≡ first_sweep loads dumps fetched budget keep_recent t
      → Behind true (horizon_of t keep_recent) [] t o
      → Fits budget o
      → Compacted budget keep_recent t
          (second loads dumps fetched budget (horizon_of t keep_recent) o).0
  seconded budget keep_recent t (out, (evicted, true)) eq (ns, e, kept) fits = inr (
      inl (
        fits,
        subst (λ l. KeptUpTo loads dumps fetched true (horizon_of t keep_recent) t l) (sym e) kept,
      ))
  seconded budget keep_recent t (out, (evicted, false)) eq (ns, e, kept) fits =
      let h = horizon_of t keep_recent in
      let (ks, d, more) = sweep-Behind false budget h [] out evicted in
      inr (
        inr (
          subst (λ o. budget < transcript_size o.0) eq fits,
          subst (λ l. KeptUpTo loads dumps fetched false h t l) (sym d)
              (kept_trans loads dumps fetched true h t out ks
                (subst (λ l. KeptUpTo loads dumps fetched true h t l) (sym e) kept) more),
        ))

  -- `compact` leaves a transcript that fits as it is. Otherwise the messages from the horizon on stay
  -- the same, as do the turns before it that are not a tool's, and each result keeps its tool and its
  -- call; and pinned results are kept whole, unless the other bodies alone do not make room enough.
  pub compact-Compacted :
      (budget keep_recent : ℕ) (t : List Message)
      → Compacted budget keep_recent t (compact loads dumps fetched budget keep_recent t).0
  unfolding compact
  compact-Compacted budget keep_recent t =
      choose {A = List Message × Report} (λ o. Compacted budget keep_recent t o.0)
        (leb (transcript_size t) budget) _ _ (λ e. inl (leb→le _ _ e, refl))
        (λ e.
          seconded budget keep_recent t _ refl
            (sweep-Behind true budget (horizon_of t keep_recent) [] t 0)
            (sweep-Fits true budget (horizon_of t keep_recent) [] t 0 (not-leb _ _ e)))
