-- ===== src/Bindings/Keeps/Pads.antt =====
-- The decoders of tablet pads in cursorshape/tablet_v2.go.
use sysc_wayland.Base.{ℕ, List, Option}
use sysc_wayland.World.{World, M}
use sysc_wayland.Bindings.Events.{Event}
use sysc_wayland.Bindings.Decoders.TabletPadRing
use sysc_wayland.Bindings.Decoders.TabletPadStrip
use sysc_wayland.Bindings.Decoders.TabletPadGroup
use sysc_wayland.Bindings.Decoders.TabletPad
use sysc_wayland.Bindings.Keeps.{IsFrame, Keeps, keeps_rules}

module _ {R : World → World → Type 0} (frame : IsFrame R) (on_event : ℕ → Event → M (Unit {0}))
    (calm : (p : ℕ) (e : Event) → Keeps R (on_event p e)) where
  tablet_pad_ring_source_event-Keeps :
      (p : ℕ) (body : List ℕ) → Keeps R (TabletPadRing.source_event on_event p body)
  unfolding TabletPadRing.source_event
  tablet_pad_ring_source_event-Keeps p body = search (keeps_rules) depth 40

  tablet_pad_ring_angle_event-Keeps :
      (p : ℕ) (body : List ℕ) → Keeps R (TabletPadRing.angle_event on_event p body)
  unfolding TabletPadRing.angle_event
  tablet_pad_ring_angle_event-Keeps p body = search (keeps_rules) depth 40

  tablet_pad_ring_frame_event-Keeps :
      (p : ℕ) (body : List ℕ) → Keeps R (TabletPadRing.frame_event on_event p body)
  unfolding TabletPadRing.frame_event
  tablet_pad_ring_frame_event-Keeps p body = search (keeps_rules) depth 40

  pub tablet_pad_ring-Keeps :
      (p opcode : ℕ) (fd : Option ℕ) (body : List ℕ)
      → Keeps R (TabletPadRing.dispatch on_event p opcode fd body)
  unfolding TabletPadRing.dispatch
  tablet_pad_ring-Keeps p opcode fd body =
      search
        (
          keeps_rules, tablet_pad_ring_source_event-Keeps, tablet_pad_ring_angle_event-Keeps,
          tablet_pad_ring_frame_event-Keeps,
        )
        depth 60

  tablet_pad_strip_source_event-Keeps :
      (p : ℕ) (body : List ℕ) → Keeps R (TabletPadStrip.source_event on_event p body)
  unfolding TabletPadStrip.source_event
  tablet_pad_strip_source_event-Keeps p body = search (keeps_rules) depth 40

  tablet_pad_strip_position_event-Keeps :
      (p : ℕ) (body : List ℕ) → Keeps R (TabletPadStrip.position_event on_event p body)
  unfolding TabletPadStrip.position_event
  tablet_pad_strip_position_event-Keeps p body = search (keeps_rules) depth 40

  tablet_pad_strip_frame_event-Keeps :
      (p : ℕ) (body : List ℕ) → Keeps R (TabletPadStrip.frame_event on_event p body)
  unfolding TabletPadStrip.frame_event
  tablet_pad_strip_frame_event-Keeps p body = search (keeps_rules) depth 40

  pub tablet_pad_strip-Keeps :
      (p opcode : ℕ) (fd : Option ℕ) (body : List ℕ)
      → Keeps R (TabletPadStrip.dispatch on_event p opcode fd body)
  unfolding TabletPadStrip.dispatch
  tablet_pad_strip-Keeps p opcode fd body =
      search
        (
          keeps_rules, tablet_pad_strip_source_event-Keeps, tablet_pad_strip_position_event-Keeps,
          tablet_pad_strip_frame_event-Keeps,
        )
        depth 60

  tablet_pad_group_buttons_event-Keeps :
      (p : ℕ) (body : List ℕ) → Keeps R (TabletPadGroup.buttons_event on_event p body)
  unfolding TabletPadGroup.buttons_event
  tablet_pad_group_buttons_event-Keeps p body = search (keeps_rules) depth 40

  tablet_pad_group_ring_event-Keeps :
      (p : ℕ) (body : List ℕ) → Keeps R (TabletPadGroup.ring_event on_event p body)
  unfolding TabletPadGroup.ring_event
  tablet_pad_group_ring_event-Keeps p body = search (keeps_rules) depth 40

  tablet_pad_group_strip_event-Keeps :
      (p : ℕ) (body : List ℕ) → Keeps R (TabletPadGroup.strip_event on_event p body)
  unfolding TabletPadGroup.strip_event
  tablet_pad_group_strip_event-Keeps p body = search (keeps_rules) depth 40

  tablet_pad_group_modes_event-Keeps :
      (p : ℕ) (body : List ℕ) → Keeps R (TabletPadGroup.modes_event on_event p body)
  unfolding TabletPadGroup.modes_event
  tablet_pad_group_modes_event-Keeps p body = search (keeps_rules) depth 40

  tablet_pad_group_mode_switch_event-Keeps :
      (p : ℕ) (body : List ℕ) → Keeps R (TabletPadGroup.mode_switch_event on_event p body)
  unfolding TabletPadGroup.mode_switch_event
  tablet_pad_group_mode_switch_event-Keeps p body = search (keeps_rules) depth 40

  pub tablet_pad_group-Keeps :
      (p opcode : ℕ) (fd : Option ℕ) (body : List ℕ)
      → Keeps R (TabletPadGroup.dispatch on_event p opcode fd body)
  unfolding TabletPadGroup.dispatch
  tablet_pad_group-Keeps p opcode fd body =
      search
        (
          keeps_rules, tablet_pad_group_buttons_event-Keeps, tablet_pad_group_ring_event-Keeps,
          tablet_pad_group_strip_event-Keeps, tablet_pad_group_modes_event-Keeps,
          tablet_pad_group_mode_switch_event-Keeps,
        )
        depth 60

  tablet_pad_group_event-Keeps :
      (p : ℕ) (body : List ℕ) → Keeps R (TabletPad.group_event on_event p body)
  unfolding TabletPad.group_event
  tablet_pad_group_event-Keeps p body = search (keeps_rules) depth 40

  tablet_pad_path_event-Keeps :
      (p : ℕ) (body : List ℕ) → Keeps R (TabletPad.path_event on_event p body)
  unfolding TabletPad.path_event
  tablet_pad_path_event-Keeps p body = search (keeps_rules) depth 40

  tablet_pad_buttons_event-Keeps :
      (p : ℕ) (body : List ℕ) → Keeps R (TabletPad.buttons_event on_event p body)
  unfolding TabletPad.buttons_event
  tablet_pad_buttons_event-Keeps p body = search (keeps_rules) depth 40

  tablet_pad_button_event-Keeps :
      (p : ℕ) (body : List ℕ) → Keeps R (TabletPad.button_event on_event p body)
  unfolding TabletPad.button_event
  tablet_pad_button_event-Keeps p body = search (keeps_rules) depth 40

  tablet_pad_enter_event-Keeps :
      (p : ℕ) (body : List ℕ) → Keeps R (TabletPad.enter_event on_event p body)
  unfolding TabletPad.enter_event
  tablet_pad_enter_event-Keeps p body = search (keeps_rules) depth 40

  tablet_pad_leave_event-Keeps :
      (p : ℕ) (body : List ℕ) → Keeps R (TabletPad.leave_event on_event p body)
  unfolding TabletPad.leave_event
  tablet_pad_leave_event-Keeps p body = search (keeps_rules) depth 40

  pub tablet_pad-Keeps :
      (p opcode : ℕ) (fd : Option ℕ) (body : List ℕ)
      → Keeps R (TabletPad.dispatch on_event p opcode fd body)
  unfolding TabletPad.dispatch
  tablet_pad-Keeps p opcode fd body =
      search
        (
          keeps_rules, tablet_pad_group_event-Keeps, tablet_pad_path_event-Keeps,
          tablet_pad_buttons_event-Keeps, tablet_pad_button_event-Keeps,
          tablet_pad_enter_event-Keeps, tablet_pad_leave_event-Keeps,
        )
        depth 60

pub tablet_pad_group_absorb-Keeps :
    {R : World → World → Type 0} (frame : IsFrame R) (p opcode : ℕ) (body : List ℕ)
    → Keeps R (TabletPadGroup.absorb_new_ids p opcode body)
unfolding TabletPadGroup.absorb_new_ids
tablet_pad_group_absorb-Keeps frame p opcode body = search keeps_rules depth 30

pub tablet_pad_absorb-Keeps :
    {R : World → World → Type 0} (frame : IsFrame R) (p opcode : ℕ) (body : List ℕ)
    → Keeps R (TabletPad.absorb_new_ids p opcode body)
unfolding TabletPad.absorb_new_ids
tablet_pad_absorb-Keeps frame p opcode body = search keeps_rules depth 30
