-- ===== src/Bindings/Keeps/Tablet.antt =====
-- The decoders of tablets and their tools in cursorshape/tablet_v2.go.
use sysc_wayland.Base.{ℕ, List, Option}
use sysc_wayland.World.{World, M}
use sysc_wayland.Bindings.Events.{Event}
use sysc_wayland.Bindings.Decoders.TabletSeat
use sysc_wayland.Bindings.Decoders.TabletTool
use sysc_wayland.Bindings.Decoders.Tablet
use sysc_wayland.Bindings.Keeps.{IsFrame, Keeps, keeps_rules}

module _ {R : World → World → Type 0} (frame : IsFrame R) (on_event : ℕ → Event → M (Unit {0}))
    (calm : (p : ℕ) (e : Event) → Keeps R (on_event p e)) where
  tablet_seat_tablet_added_event-Keeps :
      (p : ℕ) (body : List ℕ) → Keeps R (TabletSeat.tablet_added_event on_event p body)
  unfolding TabletSeat.tablet_added_event
  tablet_seat_tablet_added_event-Keeps p body = search (keeps_rules) depth 40

  tablet_seat_tool_added_event-Keeps :
      (p : ℕ) (body : List ℕ) → Keeps R (TabletSeat.tool_added_event on_event p body)
  unfolding TabletSeat.tool_added_event
  tablet_seat_tool_added_event-Keeps p body = search (keeps_rules) depth 40

  tablet_seat_pad_added_event-Keeps :
      (p : ℕ) (body : List ℕ) → Keeps R (TabletSeat.pad_added_event on_event p body)
  unfolding TabletSeat.pad_added_event
  tablet_seat_pad_added_event-Keeps p body = search (keeps_rules) depth 40

  pub tablet_seat-Keeps :
      (p opcode : ℕ) (fd : Option ℕ) (body : List ℕ)
      → Keeps R (TabletSeat.dispatch on_event p opcode fd body)
  unfolding TabletSeat.dispatch
  tablet_seat-Keeps p opcode fd body =
      search
        (
          keeps_rules, tablet_seat_tablet_added_event-Keeps, tablet_seat_tool_added_event-Keeps,
          tablet_seat_pad_added_event-Keeps,
        )
        depth 60

  tablet_tool_type_event-Keeps :
      (p : ℕ) (body : List ℕ) → Keeps R (TabletTool.type_event on_event p body)
  unfolding TabletTool.type_event
  tablet_tool_type_event-Keeps p body = search (keeps_rules) depth 40

  tablet_tool_hardware_serial_event-Keeps :
      (p : ℕ) (body : List ℕ) → Keeps R (TabletTool.hardware_serial_event on_event p body)
  unfolding TabletTool.hardware_serial_event
  tablet_tool_hardware_serial_event-Keeps p body = search (keeps_rules) depth 40

  tablet_tool_hardware_id_wacom_event-Keeps :
      (p : ℕ) (body : List ℕ) → Keeps R (TabletTool.hardware_id_wacom_event on_event p body)
  unfolding TabletTool.hardware_id_wacom_event
  tablet_tool_hardware_id_wacom_event-Keeps p body = search (keeps_rules) depth 40

  tablet_tool_capability_event-Keeps :
      (p : ℕ) (body : List ℕ) → Keeps R (TabletTool.capability_event on_event p body)
  unfolding TabletTool.capability_event
  tablet_tool_capability_event-Keeps p body = search (keeps_rules) depth 40

  tablet_tool_proximity_in_event-Keeps :
      (p : ℕ) (body : List ℕ) → Keeps R (TabletTool.proximity_in_event on_event p body)
  unfolding TabletTool.proximity_in_event
  tablet_tool_proximity_in_event-Keeps p body = search (keeps_rules) depth 40

  tablet_tool_down_event-Keeps :
      (p : ℕ) (body : List ℕ) → Keeps R (TabletTool.down_event on_event p body)
  unfolding TabletTool.down_event
  tablet_tool_down_event-Keeps p body = search (keeps_rules) depth 40

  tablet_tool_motion_event-Keeps :
      (p : ℕ) (body : List ℕ) → Keeps R (TabletTool.motion_event on_event p body)
  unfolding TabletTool.motion_event
  tablet_tool_motion_event-Keeps p body = search (keeps_rules) depth 40

  tablet_tool_pressure_event-Keeps :
      (p : ℕ) (body : List ℕ) → Keeps R (TabletTool.pressure_event on_event p body)
  unfolding TabletTool.pressure_event
  tablet_tool_pressure_event-Keeps p body = search (keeps_rules) depth 40

  tablet_tool_distance_event-Keeps :
      (p : ℕ) (body : List ℕ) → Keeps R (TabletTool.distance_event on_event p body)
  unfolding TabletTool.distance_event
  tablet_tool_distance_event-Keeps p body = search (keeps_rules) depth 40

  tablet_tool_tilt_event-Keeps :
      (p : ℕ) (body : List ℕ) → Keeps R (TabletTool.tilt_event on_event p body)
  unfolding TabletTool.tilt_event
  tablet_tool_tilt_event-Keeps p body = search (keeps_rules) depth 40

  tablet_tool_rotation_event-Keeps :
      (p : ℕ) (body : List ℕ) → Keeps R (TabletTool.rotation_event on_event p body)
  unfolding TabletTool.rotation_event
  tablet_tool_rotation_event-Keeps p body = search (keeps_rules) depth 40

  tablet_tool_slider_event-Keeps :
      (p : ℕ) (body : List ℕ) → Keeps R (TabletTool.slider_event on_event p body)
  unfolding TabletTool.slider_event
  tablet_tool_slider_event-Keeps p body = search (keeps_rules) depth 40

  tablet_tool_wheel_event-Keeps :
      (p : ℕ) (body : List ℕ) → Keeps R (TabletTool.wheel_event on_event p body)
  unfolding TabletTool.wheel_event
  tablet_tool_wheel_event-Keeps p body = search (keeps_rules) depth 40

  tablet_tool_button_event-Keeps :
      (p : ℕ) (body : List ℕ) → Keeps R (TabletTool.button_event on_event p body)
  unfolding TabletTool.button_event
  tablet_tool_button_event-Keeps p body = search (keeps_rules) depth 40

  tablet_tool_frame_event-Keeps :
      (p : ℕ) (body : List ℕ) → Keeps R (TabletTool.frame_event on_event p body)
  unfolding TabletTool.frame_event
  tablet_tool_frame_event-Keeps p body = search (keeps_rules) depth 40

  pub tablet_tool-Keeps :
      (p opcode : ℕ) (fd : Option ℕ) (body : List ℕ)
      → Keeps R (TabletTool.dispatch on_event p opcode fd body)
  unfolding TabletTool.dispatch
  tablet_tool-Keeps p opcode fd body =
      search
        (
          keeps_rules, tablet_tool_type_event-Keeps, tablet_tool_hardware_serial_event-Keeps,
          tablet_tool_hardware_id_wacom_event-Keeps, tablet_tool_capability_event-Keeps,
          tablet_tool_proximity_in_event-Keeps, tablet_tool_down_event-Keeps,
          tablet_tool_motion_event-Keeps, tablet_tool_pressure_event-Keeps,
          tablet_tool_distance_event-Keeps, tablet_tool_tilt_event-Keeps,
          tablet_tool_rotation_event-Keeps, tablet_tool_slider_event-Keeps,
          tablet_tool_wheel_event-Keeps, tablet_tool_button_event-Keeps,
          tablet_tool_frame_event-Keeps,
        )
        depth 60

  tablet_name_event-Keeps : (p : ℕ) (body : List ℕ) → Keeps R (Tablet.name_event on_event p body)
  unfolding Tablet.name_event
  tablet_name_event-Keeps p body = search (keeps_rules) depth 40

  tablet_id_event-Keeps : (p : ℕ) (body : List ℕ) → Keeps R (Tablet.id_event on_event p body)
  unfolding Tablet.id_event
  tablet_id_event-Keeps p body = search (keeps_rules) depth 40

  tablet_path_event-Keeps : (p : ℕ) (body : List ℕ) → Keeps R (Tablet.path_event on_event p body)
  unfolding Tablet.path_event
  tablet_path_event-Keeps p body = search (keeps_rules) depth 40

  pub tablet-Keeps :
      (p opcode : ℕ) (fd : Option ℕ) (body : List ℕ)
      → Keeps R (Tablet.dispatch on_event p opcode fd body)
  unfolding Tablet.dispatch
  tablet-Keeps p opcode fd body =
      search (keeps_rules, tablet_name_event-Keeps, tablet_id_event-Keeps, tablet_path_event-Keeps)
        depth 60

pub tablet_seat_absorb-Keeps :
    {R : World → World → Type 0} (frame : IsFrame R) (p opcode : ℕ) (body : List ℕ)
    → Keeps R (TabletSeat.absorb_new_ids p opcode body)
unfolding TabletSeat.absorb_new_ids
tablet_seat_absorb-Keeps frame p opcode body = search keeps_rules depth 30
