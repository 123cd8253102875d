-- ===== src/Runtime/Controller/Order.antt =====
-- aurora_core/runtime/controller.py: the order of the calls into components.
use project_aurora.Base.{
  ◌≡◌, refl, sym, ◌∙◌, ap, subst, ◌⊎◌, inl, inr, true, false, Option, none, some, List, [], ◌∷◌,
  ◌++◌, map, arith, length, if◌then◌else◌, Option-cases,
}
use mathlib.Core.Path.{subst₂}
use mathlib.Core.List.{reverse, append_assoc, append-nil, reverse-cons}
use project_aurora.Runtime.Models.{starting, running, ComponentId, ComponentPlan, RuntimeError}
use project_aurora.Runtime.Controller.Ownership.{
  IsOwned, Settled, Stopped, stop_from-Stopped, start-Settled,
}
use project_aurora.Runtime.Controller.{
  set_lifecycle, record_call, RuntimeController, Call, start_call, stop_call, first_failure,
  stop_component, stop_from, stop_started, start_item, start_from, start, stop,
}

abbrev Ends : List Call → RuntimeController × (Option ComponentId ⊎ RuntimeError) → Type 0
Ends calls (c, inl f) = c.calls ≡ calls
Ends calls (c, inr e) = Unit

-- Unless an entry is missing, each identity of the list is stopped once, in the list's order.
stop_from-calls :
    (ids : List ComponentId) (c : RuntimeController) (f : Option ComponentId)
    → Ends (c.calls ++ map stop_call ids) (stop_from ids c f)
unfolding stop_from
stop_from-calls [] c f = sym (append-nil c.calls)
stop_from-calls (i ∷ rest) c f = elim (Option-cases (c.components i)) [
  | inl e ↦ rw (e, stop_from) tt
  | inr (component, e) ↦
      let c' = (stop_component component i (record c { started = rest })).0 in
      let f' = first_failure f i (component.stop_raises (length c.calls)) in
      rw (e, stop_from)
        (subst (λ calls. Ends calls (stop_from rest c' f'))
          (append_assoc c.calls (stop_call i ∷ []) (map stop_call rest))
          (stop_from-calls rest c' f'))
]

-- The identities that `start` goes through.
abbrev pub enabled_ids : List ComponentPlan → List ComponentId
enabled_ids [] = []
enabled_ids (p ∷ ps) =
    let rest = enabled_ids ps in if p.enabled then p.component_id ∷ rest else rest

abbrev Begun : List Call → List ComponentId → RuntimeController × Option RuntimeError → Type 0
Begun calls ids (c, none) = (c.calls ≡ calls) × (c.started ≡ ids)
Begun calls ids (c, some e) = Unit

begun_state : RuntimeController → ComponentId → RuntimeController
begun_state c i =
    record (set_lifecycle (record_call (set_lifecycle c i starting) (start_call i)) i running) {
      started = i ∷ c.started;
    }

started_one :
    (i : ComponentId) (ps : List ComponentPlan) (c : RuntimeController)
    → ((c' : RuntimeController)
        → Begun
            (c'.calls ++ map start_call (enabled_ids ps))
            (reverse (enabled_ids ps) ++ c'.started)
            (start_from ps c'))
    → Begun
        (c.calls ++ map start_call (i ∷ enabled_ids ps))
        (reverse (i ∷ enabled_ids ps) ++ c.started)
        (start_from ps (begun_state c i))
unfolding begun_state
started_one i ps c ih =
    let ids = enabled_ids ps in
    subst₂ (λ calls started. Begun calls started (start_from ps (begun_state c i)))
      (append_assoc c.calls (start_call i ∷ []) (map start_call ids))
      (sym (append_assoc (reverse ids) (i ∷ []) c.started)
        ∙ ap (λ l. l ++ c.started) (sym (reverse-cons i ids)))
      (ih (begun_state c i))

start_item-ok :
    (c : RuntimeController) (p : ComponentPlan)
    → (start_item c p).1 ≡ none
    → ((p.enabled ≡ false) × ((start_item c p).0 ≡ c))
      ⊎ ((p.enabled ≡ true) × ((start_item c p).0 ≡ begun_state c p.component_id))
unfolding start_item begun_state
start_item-ok c p h = ground arith

start_from-Begun :
    (ps : List ComponentPlan) (c : RuntimeController)
    → Begun
        (c.calls ++ map start_call (enabled_ids ps))
        (reverse (enabled_ids ps) ++ c.started)
        (start_from ps c)
unfolding start_from
start_from-Begun [] c = (sym (append-nil c.calls), refl)
start_from-Begun (p ∷ ps) c = go (start_item c p) (start_item-ok c p) (start_from-Begun ps)
  where
    go :
        (r : RuntimeController × Option RuntimeError)
        → (r.1 ≡ none
            → ((p.enabled ≡ false) × (r.0 ≡ c))
              ⊎ ((p.enabled ≡ true) × (r.0 ≡ begun_state c p.component_id)))
        → ((c' : RuntimeController)
            → Begun
                (c'.calls ++ map start_call (enabled_ids ps))
                (reverse (enabled_ids ps) ++ c'.started)
                (start_from ps c'))
        → Begun
            (c.calls ++ map start_call (enabled_ids (p ∷ ps)))
            (reverse (enabled_ids (p ∷ ps)) ++ c.started)
            (elim r.1 [ some x ↦ (r.0, some x) | none ↦ start_from ps r.0 ])
    go (c', some x) ok ih = tt
    go (c', none) ok ih = elim (ok refl) [
      | inl (off, e) ↦ simp (off, e) (ih c)
      | inr (on, e) ↦ simp (on, e) (started_one p.component_id ps c ih)
    ]

start-start_from :
    (c : RuntimeController) → c.started ≡ [] → start c ≡ start_from c.plan.components c
unfolding start
start-start_from c e = ground arith

start-Begun :
    (c : RuntimeController)
    → c.started ≡ []
    → Begun
        (c.calls ++ map start_call (enabled_ids c.plan.components))
        (reverse (enabled_ids c.plan.components))
        (start c)
start-Begun c e =
    let ids = enabled_ids c.plan.components in
    rw (start-start_from c e) (
      subst (λ l. Begun (c.calls ++ map start_call ids) l (start_from c.plan.components c))
        (ap (◌++◌ (reverse ids)) e ∙ append-nil (reverse ids))
        (start_from-Begun c.plan.components c))

stop-Ends :
    (c : RuntimeController) → IsOwned c → (stop c).0.calls ≡ c.calls ++ map stop_call c.started
unfolding stop stop_started
stop-Ends c v =
    go (stop_from c.started c none) (stop_from-calls c.started c none)
      (stop_from-Stopped c.started c none v.running_started v.started_known)
  where
    go :
        (r : RuntimeController × (Option ComponentId ⊎ RuntimeError))
        → Ends (c.calls ++ map stop_call c.started) r
        → Stopped r
        → r.0.calls ≡ c.calls ++ map stop_call c.started
    go (c', inl f) e s = e
    go (c', inr x) e s = absurd s

-- When nothing was started and `start` raises nothing, it calls `start` on each enabled component
-- once, in plan order, and the next `stop` calls `stop` on the same ones in reverse order.
pub stop-start-calls :
    (c : RuntimeController)
    → IsOwned c
    → c.started ≡ []
    → (start c).1 ≡ none
    → (stop (start c).0).0.calls
      ≡ (c.calls ++ map start_call (enabled_ids c.plan.components))
        ++ map stop_call (reverse (enabled_ids c.plan.components))
stop-start-calls c v e h = go (start c) h (start-Begun c e) (start-Settled c v)
  where
    go :
        (r : RuntimeController × Option RuntimeError)
        → r.1 ≡ none
        → Begun
            (c.calls ++ map start_call (enabled_ids c.plan.components))
            (reverse (enabled_ids c.plan.components))
            r
        → Settled r
        → (stop r.0).0.calls
          ≡ (c.calls ++ map start_call (enabled_ids c.plan.components))
            ++ map stop_call (reverse (enabled_ids c.plan.components))
    go (c', some x) h b w = absurd (cc)
    go (c', none) h b w = rw (stop-Ends c' w, b.0, b.1)
