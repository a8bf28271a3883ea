-- ===== src/Tests/Outputs.antt =====
-- The outputs of a run at concrete events.
use jupyter_pair_ext.Base.{String, ◌≡◌, refl, true, none, [], ◌∷◌, nat_eq, string_eq}
use jupyter_pair_ext.Base.Js.{
  Value, bool, str, arr, obj, nil, cons, Fields, end, field, get_field, codes,
}
use jupyter_pair_ext.NotebookOutputs.{
  stdout, stream, read_event, read_message, join_lines, persistent_notebook_outputs, reduce,
  apply_change, append, push,
}
use jupyter_pair_ext.NotebookOutputs.{display_change, register, nothing_yet}
use jupyter_pair_ext.Base.{get, put}
use jupyter_pair_ext.NotebookOutputs.Displays.{AreDisplays, reduce-Shown}
use jupyter_pair_ext.NotebookOutputs.Merged.{
  are_merged, persistent_notebook_outputs-merged, persistent_notebook_outputs-cut,
}

abbrev message : String → Fields → Fields
message kind content =
    field "type" (str "iopub") (field "messageType" (str kind) (field "content" (obj content) end))

abbrev printed : Value → Fields
printed text = message "stream" (field "name" (str "stdout") (field "text" text end))

abbrev lines : Value
lines = arr (cons (str "ab") (cons (str "c") nil))

abbrev deferred : Fields
deferred = message "clear_output" (field "wait" (bool true) end)

run :
    persistent_notebook_outputs
      (printed (str "x") ∷ deferred ∷ printed lines ∷ printed (str "d") ∷ [])
    ≡ (stream stdout (codes "abcd") ∷ [], none)
unfolding persistent_notebook_outputs reduce apply_change append push read_event read_message
    join_lines get_field
run = refl

persistent_notebook_outputs-merged_example :
    are_merged (persistent_notebook_outputs (printed lines ∷ printed (str "d") ∷ [])).0 ≡ true
persistent_notebook_outputs-merged_example =
    persistent_notebook_outputs-merged (printed lines ∷ printed (str "d") ∷ [])

persistent_notebook_outputs-cut_example :
    persistent_notebook_outputs (deferred ∷ printed (str "ab") ∷ printed (str "c") ∷ deferred ∷ [])
    ≡ persistent_notebook_outputs (deferred ∷ printed lines ∷ deferred ∷ [])
unfolding read_event read_message join_lines get_field
persistent_notebook_outputs-cut_example =
    persistent_notebook_outputs-cut (deferred ∷ []) (deferred ∷ []) (printed (str "ab"))
      (printed (str "c")) (printed lines) stdout (codes "ab") (codes "c") refl refl refl

abbrev display : Fields
display =
    message "display_data"
      (field "data" (obj end) (field "transient" (obj (field "display_id" (str "d") end)) end))

reduce-Shown_example :
    AreDisplays (reduce (printed (str "x") ∷ display ∷ []) nothing_yet).outputs (1 ∷ [])
unfolding reduce apply_change append push register read_event read_message display_change get_field
    get put
reduce-Shown_example = reduce-Shown (printed (str "x") ∷ display ∷ []) "d"
