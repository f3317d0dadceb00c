-- ===== src/Agent/WorkingSet/Kept.antt =====
-- chipchamp/agent/working_set.py: what `compact` leaves as it was.
use chipchamp.Prelude.{choose, ℕ, zero, suc, ◌≡◌, refl, ◌∙◌, Bool, true, false, ◌&&◌, List, [], ◌∷◌}
use chipchamp.Text.{Text}
use chipchamp.Dict.{Dict}
use chipchamp.Agent.Transcript.{Item, result, other, Content, nothing, words, items, Message}
use chipchamp.Agent.Digest.{Value, Loaded, is_pinned}
use chipchamp.Agent.WorkingSet.{turn, turns, is_tool_turn, swept_content, swept}

module _ (loads : Text → Loaded) (dumps : Dict Value → Text) (fetched : List Text) where
  -- A result keeps its tool and its call; all of it is kept if it is pinned, in a sweep that skips
  -- those.
  abbrev pub ItemKept : Bool → Item → Item → Type 0
  ItemKept skip (other t) (other u) = u ≡ t
  ItemKept skip (other t) (result s) = ⊥
  ItemKept skip (result r) (other u) = ⊥
  ItemKept skip (result r) (result s) =
      (s.id ≡ r.id) × (s.name ≡ r.name) × (skip && is_pinned fetched r ≡ true → s ≡ r)

  abbrev pub ItemsKept : Bool → List Item → List Item → Type 0
  ItemsKept skip [] [] = Unit
  ItemsKept skip [] (j ∷ js) = ⊥
  ItemsKept skip (i ∷ is) [] = ⊥
  ItemsKept skip (i ∷ is) (j ∷ js) = ItemKept skip i j × ItemsKept skip is js

  abbrev pub items_in : Content → List Item
  items_in nothing = []
  items_in (words t) = []
  items_in (items is) = is

  -- A turn that is not a tool's is kept whole; a tool's turn keeps its entries.
  pub record MessageKept (skip : Bool) (m n : Message) : Type 0 where
    pub same_role : n.role ≡ m.role
    pub same_calls : n.tool_calls ≡ m.tool_calls
    pub same_kind : is_tool_turn n.role n.content ≡ is_tool_turn m.role m.content
    pub whole : is_tool_turn m.role m.content ≡ false → n ≡ m
    pub entries : ItemsKept skip (items_in m.content) (items_in n.content)

  -- The messages before the horizon are kept so, and those from it on are the same.
  abbrev pub KeptUpTo : Bool → ℕ → List Message → List Message → Type 0
  KeptUpTo skip zero ms ns = ns ≡ ms
  KeptUpTo skip (suc h) [] [] = Unit
  KeptUpTo skip (suc h) [] (n ∷ ns) = ⊥
  KeptUpTo skip (suc h) (m ∷ ms) [] = ⊥
  KeptUpTo skip (suc h) (m ∷ ms) (n ∷ ns) = MessageKept skip m n × KeptUpTo skip h ms ns

  item_refl : (skip : Bool) (i : Item) → ItemKept skip i i
  item_refl skip (other t) = refl
  item_refl skip (result r) = (refl, refl, λ h. refl)

  items_refl : (skip : Bool) (is : List Item) → ItemsKept skip is is
  items_refl skip [] = tt
  items_refl skip (i ∷ is) = (item_refl skip i, items_refl skip is)

  message_refl : (skip : Bool) (m : Message) → MessageKept skip m m
  message_refl skip m = record {
    same_role = refl;
    same_calls = refl;
    same_kind = refl;
    whole = λ h. refl;
    entries = items_refl skip (items_in m.content);
  }

  pub kept_refl : (skip : Bool) (h : ℕ) (ms : List Message) → KeptUpTo skip h ms ms
  kept_refl skip zero ms = refl
  kept_refl skip (suc h) [] = tt
  kept_refl skip (suc h) (m ∷ ms) = (message_refl skip m, kept_refl skip h ms)

  item_trans :
      (skip : Bool) (i j k : Item) → ItemKept skip i j → ItemKept false j k → ItemKept false i k
  item_trans skip (other t) (other u) (other v) p q = q ∙ p
  item_trans skip (other t) (other u) (result v) p q = q
  item_trans skip (other t) (result u) k p q = absurd p
  item_trans skip (result t) (other u) k p q = absurd p
  item_trans skip (result t) (result u) (other v) p q = q
  item_trans skip (result t) (result u) (result v) p q = (q.0 ∙ p.0, q.1 ∙ p.1, λ h. cc)

  items_trans :
      (skip : Bool) (is js ks : List Item)
      → ItemsKept skip is js
      → ItemsKept false js ks
      → ItemsKept false is ks
  items_trans skip [] [] [] p q = tt
  items_trans skip [] [] (k ∷ ks) p q = q
  items_trans skip [] (j ∷ js) ks p q = absurd p
  items_trans skip (i ∷ is) [] ks p q = absurd p
  items_trans skip (i ∷ is) (j ∷ js) [] p q = q
  items_trans skip (i ∷ is) (j ∷ js) (k ∷ ks) p q =
      (item_trans skip i j k p.0 q.0, items_trans skip is js ks p.1 q.1)

  message_trans :
      (skip : Bool) (l m n : Message)
      → MessageKept skip l m
      → MessageKept false m n
      → MessageKept false l n
  message_trans skip l m n p q = record {
    same_role = q.same_role ∙ p.same_role;
    same_calls = q.same_calls ∙ p.same_calls;
    same_kind = q.same_kind ∙ p.same_kind;
    whole = λ h. q.whole (p.same_kind ∙ h) ∙ p.whole h;
    entries =
        items_trans skip (items_in l.content) (items_in m.content) (items_in n.content) p.entries
          q.entries;
  }

  pub kept_trans :
      (skip : Bool) (h : ℕ) (ls ms ns : List Message)
      → KeptUpTo skip h ls ms
      → KeptUpTo false h ms ns
      → KeptUpTo false h ls ns
  kept_trans skip zero ls ms ns p q = q ∙ p
  kept_trans skip (suc h) [] [] [] p q = tt
  kept_trans skip (suc h) [] [] (n ∷ ns) p q = q
  kept_trans skip (suc h) [] (m ∷ ms) ns p q = absurd p
  kept_trans skip (suc h) (l ∷ ls) [] ns p q = absurd p
  kept_trans skip (suc h) (l ∷ ls) (m ∷ ms) [] p q = q
  kept_trans skip (suc h) (l ∷ ls) (m ∷ ms) (n ∷ ns) p q =
      (message_trans skip l m n p.0 q.0, kept_trans skip h ls ms ns p.1 q.1)

  turn-ItemKept : (skip : Bool) (i : Item) → ItemKept skip i (turn loads dumps fetched skip i).0
  turn-ItemKept skip (other t) = refl
  turn-ItemKept skip (result r) =
      choose {A = Item × ℕ} (λ o. ItemKept skip (result r) o.0) (skip && is_pinned fetched r) _ _
        (λ e. item_refl skip (result r)) (λ e. (refl, refl, λ h. cc))

  turns-ItemsKept :
      (skip : Bool) (is : List Item) → ItemsKept skip is (turns loads dumps fetched skip is).0
  turns-ItemsKept skip [] = tt
  turns-ItemsKept skip (i ∷ is) = (turn-ItemKept skip i, turns-ItemsKept skip is)

  swept-tool :
      (skip : Bool) (role : Text) (c : Content)
      → (is_tool_turn role (swept_content loads dumps fetched skip c) ≡ is_tool_turn role c)
        × ItemsKept skip (items_in c) (items_in (swept_content loads dumps fetched skip c))
  swept-tool skip role nothing = (refl, tt)
  swept-tool skip role (words t) = (refl, tt)
  swept-tool skip role (items is) = (refl, turns-ItemsKept skip is)

  pub swept-MessageKept :
      (skip : Bool) (m : Message) → MessageKept skip m (swept loads dumps fetched skip m).0
  unfolding swept
  swept-MessageKept skip m =
      choose {A = Message × ℕ} (λ o. MessageKept skip m o.0) (is_tool_turn m.role m.content) _ _
        (λ e.
          let (kind, kept) = swept-tool skip m.role m.content in
          record {
            same_role = refl;
            same_calls = refl;
            same_kind = kind;
            whole = λ h. cc;
            entries = kept;
          })
        (λ e. message_refl skip m)
