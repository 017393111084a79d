-- ===== src/Files/Batch/Results.antt =====
-- What the dialog of a batch's results shows.
use ms_robot.Files.Batch.{
  show_batch_operation_result_dialog, normalize_batch_data, Item, Field, count_done, field_items,
  object, as_done, as_failed, echo_text,
}
use ms_robot.Base.{
  none, some, refl, [], ◌∷◌, arith, List, ◌≡◌, ◌++◌, map, length, ◌+◌, if◌then◌else◌, ◌==◌,
  length-append, length-map, ◌-◌,
}

count-done : (rs : List Item) → count_done (map as_done rs) ≡ length rs
count-done [] = refl
count-done (r ∷ rs) = omega (arith, count-done rs)

count-append : (rs ss : List Item) → count_done (rs ++ ss) ≡ count_done rs + count_done ss
count-append [] ss = omega arith
count-append (r ∷ rs) ss = omega (arith, count-append rs ss)

count-failed : (rs : List Item) → count_done (map as_failed rs) ≡ 0
count-failed [] = refl
count-failed (r ∷ rs) = omega (arith, count-failed rs)

-- The results of the answer to a request: those that succeeded, then those that failed.
abbrev pub all_results : List Item → List Item → List Item
all_results succ fail = map as_done succ ++ map as_failed fail

-- Where the back end sends a list, or nothing, for both the devices that succeeded and those that
-- failed, and not both are empty, the dialog of the results counts exactly these, whatever the items say
-- of themselves, and shows the text of each; where both are empty there is no dialog.
pub show_batch_operation_result_dialog-normalize :
    (succeeded failed : Field) (succ fail : List Item)
    → field_items succeeded ≡ some succ
    → field_items failed ≡ some fail
    → show_batch_operation_result_dialog (normalize_batch_data (object succeeded failed)) ≡ (
        if length succ + length fail == 0
        then none
        else some (record {
          success_count = length succ;
          fail_count = length fail;
          bodies = map echo_text (all_results succ fail);
        }))
unfolding show_batch_operation_result_dialog normalize_batch_data
show_batch_operation_result_dialog-normalize succeeded failed succ fail e f =
    let done = map as_done succ in
    let lost = map as_failed fail in
    let items = all_results succ fail in
    let c : count_done items ≡ length succ =
      omega (arith, count-append done lost, count-done succ, count-failed fail) in
    let l : length items ≡ length succ + length fail =
      omega (arith, length-append done lost, length-map as_done succ, length-map as_failed fail) in
    let rest : length items - length succ ≡ length fail = omega (arith, l) in
    rw (e, f) (rw (c, rest, l) refl)
