-- ===== src/Kube/Json.antt =====
-- `map[string]interface{}` and `[]interface{}` literals.
use llm_d_scheduler_sim_oper.Base.{String, List, [], ◌∷◌, Labels}
use llm_d_scheduler_sim_oper.Kube.Objects.{
  Value, text, arr, obj, Items, no_items, item, Fields, end, field,
}

abbrev fields : List (String × Value) → Fields
fields [] = end
fields ((k, v) ∷ r) = field k v (fields r)

abbrev items : List Value → Items
items [] = no_items
items (v ∷ r) = item v (items r)

abbrev pub object : List (String × Value) → Value
object l = obj (fields l)

abbrev pub array : List Value → Value
array l = arr (items l)

abbrev label_fields : Labels → Fields
label_fields [] = end
label_fields ((k, v) ∷ r) = field k (text v) (label_fields r)

-- `for k, v := range m { labels[k] = v }` from an empty map.
abbrev pub label_object : Labels → Value
label_object m = obj (label_fields m)
