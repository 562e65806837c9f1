-- ===== src/Bindings/Keeps/Tables.antt =====
-- Steps that keep the table of objects well formed.
use sysc_wayland.World.{World}
use sysc_wayland.Ids.Invariant.{IsValid, delete_id-IsValid}
use sysc_wayland.Ids.Lifecycle.{new_object_with_id-IsValid, mark_zombie-IsValid}
use sysc_wayland.Ids.Table.{IsValid-table, table-record_display_error}
use sysc_wayland.Bindings.Keeps.{IsFrame}

-- A table that is well formed before is well formed after.
abbrev pub StaysValid : World → World → Type 0
StaysValid w w' = IsValid w → IsValid w'

pub StaysValid-IsFrame : IsFrame StaysValid
StaysValid-IsFrame = record {
  same = λ w v. v;
  then_ = λ u v w h k a. k (h a);
  records =
      λ object code message w. IsValid-table w _ (table-record_display_error object code message w);
  deletes = delete_id-IsValid;
  introduces = new_object_with_id-IsValid;
  destroys = mark_zombie-IsValid;
}
