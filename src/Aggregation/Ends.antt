-- ===== src/Aggregation/Ends.antt =====
-- The ends of the handlers of TreeAggregationState.cpp.
use pddm.Prelude.{ℕ, ◌+◌, ◌==◌, Bool, Option, none, some, List, [], ◌∷◌, length}
use pddm.Messages.{ValueContribution, AggregationMessage, is_single_valued_query}
use pddm.Messages.Outcome.{ok, undefined}
use pddm.Messages.Ends.{Ends, Any, bind-Ends, if-Ends}
use pddm.Messages.FixedPoint.{◌+fp◌}
use pddm.Aggregation.{
  add_value, add_values, TreeAggregationState, deref, at_front, front, add_message, handle_message,
  add_contribution, add_contributions, compute_and_send_aggregate,
}

add_value-Ends : (m : AggregationMessage) (v n : ℕ) → Ends Any (add_value m v n)
unfolding add_value
add_value-Ends m v n = go m.body
  where
    go :
        (body : List ℕ)
        → Ends Any (elim body [
          | [] ↦ undefined
          | first ∷ rest ↦
              ok (record m {
                num_contributors = m.num_contributors + n;
                body = (first +fp v) ∷ rest;
              })
        ])
    go [] = tt
    go (first ∷ rest) = tt

add_values-Ends : (m : AggregationMessage) (vs : List ℕ) (n : ℕ) → Ends Any (add_values m vs n)
unfolding add_values
add_values-Ends m vs n = if-Ends Any (length vs == length m.body) _ _ tt tt

deref-Ends : (m : Option AggregationMessage) → Ends Any (deref m)
deref-Ends none = tt
deref-Ends (some m) = tt

at_front-Ends : (vs : List ℕ) → Ends Any (at_front vs)
at_front-Ends [] = tt
at_front-Ends (v ∷ vs) = tt

front-Ends : (vs : List ℕ) → Ends Any (front vs)
front-Ends [] = tt
front-Ends (v ∷ vs) = tt

pub handle_message-Ends :
    (s : TreeAggregationState) (m : AggregationMessage) → Ends Any (handle_message s m)
unfolding handle_message add_message
handle_message-Ends s m =
    bind-Ends Any Any (deref s.aggregation_intermediate) _ (deref-Ends s.aggregation_intermediate)
      (λ intermediate h.
        bind-Ends Any Any
          (add_message (is_single_valued_query s.current_query.request_type) intermediate m) _
          (if-Ends Any (is_single_valued_query s.current_query.request_type) _ _
            (bind-Ends Any Any (at_front m.body) _ (at_front-Ends m.body)
              (λ v h'. add_value-Ends intermediate v m.num_contributors))
            (add_values-Ends intermediate m.body m.num_contributors))
          (λ sum h'. tt))

add_contributions-Ends :
    (single : Bool) (m : AggregationMessage) (values : List ValueContribution)
    → Ends Any (add_contributions single m values)
unfolding add_contributions add_contribution
add_contributions-Ends single m [] = tt
add_contributions-Ends single m (c ∷ rest) =
    bind-Ends Any Any (add_contribution single m c) _
      (if-Ends Any single _ _
        (bind-Ends Any Any (front c.value.value) _ (front-Ends c.value.value)
          (λ v h. add_value-Ends m v 1))
        (add_values-Ends m c.value.value 1))
      (λ sum h. add_contributions-Ends single sum rest)

pub compute_and_send_aggregate-Ends :
    (s : TreeAggregationState) (values : List ValueContribution)
    → Ends Any (compute_and_send_aggregate s values)
unfolding compute_and_send_aggregate
compute_and_send_aggregate-Ends s values =
    bind-Ends Any Any (deref s.aggregation_intermediate) _ (deref-Ends s.aggregation_intermediate)
      (λ intermediate h.
        bind-Ends Any Any _ _
          (add_contributions-Ends (is_single_valued_query s.current_query.request_type) intermediate
            values)
          (λ sum h'. tt))
