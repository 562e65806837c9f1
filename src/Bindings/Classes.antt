-- ===== src/Bindings/Classes.antt =====
-- The methods of the generated types, sorted by what is known of them.
use sysc_wayland.Base.{ℕ, ◌≡◌, refl, ap, List, Option, none, some}
use mathlib.Core.Path.{subst}
use sysc_wayland.World.{
  World, M, Kind, display, registry, callback, compositor, shm_pool, shm, buffer, data_offer,
  data_source, data_device, data_device_manager, shell, shell_surface, surface, seat, pointer,
  keyboard, touch, wl_output, region, subcompositor, subsurface, fixes, idle_notifier,
  idle_notification, cursor_shape_manager, cursor_shape_device, tablet_manager, tablet_seat,
  tablet_tool, tablet, tablet_pad_ring, tablet_pad_strip, tablet_pad_group, tablet_pad,
  session_lock_manager, session_lock, session_lock_surface, text_input, text_input_manager, other,
}
use sysc_wayland.Dispatch.Interfaces.{Methods}
use sysc_wayland.Bindings.Events.{Event}
use sysc_wayland.Bindings.Objects.{has_no_fd}
use sysc_wayland.Bindings.Decoders.DataSource
use sysc_wayland.Bindings.Decoders.Keyboard
use sysc_wayland.Bindings.Table.{has_fd, absorb_new_ids, dispatch}
use sysc_wayland.Bindings.Keeps.{IsFrame, Keeps}
use sysc_wayland.Bindings.Keeps.Core.{
  display-Keeps, registry-Keeps, callback-Keeps, shm-Keeps, buffer-Keeps, data_offer-Keeps,
  data_device-Keeps, data_device_absorb-Keeps,
}
use sysc_wayland.Bindings.Keeps.Surfaces.{shell_surface-Keeps, surface-Keeps, output-Keeps}
use sysc_wayland.Bindings.Keeps.Input.{seat-Keeps, pointer-Keeps, touch-Keeps}
use sysc_wayland.Bindings.Keeps.Idle.{idle_notification-Keeps}
use sysc_wayland.Bindings.Keeps.Tablet.{
  tablet_seat-Keeps, tablet_tool-Keeps, tablet-Keeps, tablet_seat_absorb-Keeps,
}
use sysc_wayland.Bindings.Keeps.Pads.{
  tablet_pad_ring-Keeps, tablet_pad_strip-Keeps, tablet_pad_group-Keeps, tablet_pad-Keeps,
  tablet_pad_group_absorb-Keeps, tablet_pad_absorb-Keeps,
}
use sysc_wayland.Bindings.Keeps.SessionLock.{session_lock-Keeps, session_lock_surface-Keeps}
use sysc_wayland.Bindings.Keeps.TextInput.{text_input-Keeps}

abbrev or_else {ℓ} : {A : Type ℓ} → A → Option A → A
or_else m none = m
or_else m (some n) = n

by_value {ℓ} : {A : Type ℓ} (P : A → Type 0) (m n : A) → some m ≡ some n → P m → P n
by_value P m n e h = subst P (ap (or_else m) e) h

module _ {R : World → World → Type 0} (frame : IsFrame R) (on_event : ℕ → Event → M (Unit {0}))
    (calm : (p : ℕ) (e : Event) → Keeps R (on_event p e)) (foreign : Methods) where
  -- A type is without descriptors, one of the two that have some, or not modelled.
  pub data Class (kind : Kind) (m : ℕ → ℕ → Option ℕ → List ℕ → M (Unit {0})) : Type 0 where
    plain :
        has_fd on_event foreign kind ≡ some has_no_fd
        → ((p opcode : ℕ) (fd : Option ℕ) (body : List ℕ) → Keeps R (m p opcode fd body))
        → Class kind m
    sends :
        has_fd on_event foreign kind ≡ some DataSource.has_fd
        → m ≡ DataSource.dispatch on_event
        → Class kind m
    keymaps :
        has_fd on_event foreign kind ≡ some Keyboard.has_fd
        → m ≡ Keyboard.dispatch on_event
        → Class kind m
    elsewhere :
        has_fd on_event foreign kind ≡ foreign.has_fd kind
        → foreign.dispatch kind ≡ some m
        → Class kind m

  pub classify :
      (kind : Kind) (m : ℕ → ℕ → Option ℕ → List ℕ → M (Unit {0}))
      → dispatch on_event foreign kind ≡ some m
      → Class kind m
  unfolding dispatch has_fd
  classify display m e =
      by_value (Class display) _ m e (plain refl (display-Keeps frame on_event calm))
  classify registry m e =
      by_value (Class registry) _ m e (plain refl (registry-Keeps frame on_event calm))
  classify callback m e =
      by_value (Class callback) _ m e (plain refl (callback-Keeps frame on_event calm))
  classify shm m e = by_value (Class shm) _ m e (plain refl (shm-Keeps frame on_event calm))
  classify buffer m e =
      by_value (Class buffer) _ m e (plain refl (buffer-Keeps frame on_event calm))
  classify data_offer m e =
      by_value (Class data_offer) _ m e (plain refl (data_offer-Keeps frame on_event calm))
  classify data_source m e = by_value (Class data_source) _ m e (sends refl refl)
  classify data_device m e =
      by_value (Class data_device) _ m e (plain refl (data_device-Keeps frame on_event calm))
  classify shell_surface m e =
      by_value (Class shell_surface) _ m e (plain refl (shell_surface-Keeps frame on_event calm))
  classify surface m e =
      by_value (Class surface) _ m e (plain refl (surface-Keeps frame on_event calm))
  classify seat m e = by_value (Class seat) _ m e (plain refl (seat-Keeps frame on_event calm))
  classify pointer m e =
      by_value (Class pointer) _ m e (plain refl (pointer-Keeps frame on_event calm))
  classify keyboard m e = by_value (Class keyboard) _ m e (keymaps refl refl)
  classify touch m e = by_value (Class touch) _ m e (plain refl (touch-Keeps frame on_event calm))
  classify wl_output m e =
      by_value (Class wl_output) _ m e (plain refl (output-Keeps frame on_event calm))
  classify idle_notification m e =
      by_value (Class idle_notification) _ m e
        (plain refl (idle_notification-Keeps frame on_event calm))
  classify tablet_seat m e =
      by_value (Class tablet_seat) _ m e (plain refl (tablet_seat-Keeps frame on_event calm))
  classify tablet_tool m e =
      by_value (Class tablet_tool) _ m e (plain refl (tablet_tool-Keeps frame on_event calm))
  classify tablet m e =
      by_value (Class tablet) _ m e (plain refl (tablet-Keeps frame on_event calm))
  classify tablet_pad_ring m e =
      by_value (Class tablet_pad_ring) _ m e
        (plain refl (tablet_pad_ring-Keeps frame on_event calm))
  classify tablet_pad_strip m e =
      by_value (Class tablet_pad_strip) _ m e
        (plain refl (tablet_pad_strip-Keeps frame on_event calm))
  classify tablet_pad_group m e =
      by_value (Class tablet_pad_group) _ m e
        (plain refl (tablet_pad_group-Keeps frame on_event calm))
  classify tablet_pad m e =
      by_value (Class tablet_pad) _ m e (plain refl (tablet_pad-Keeps frame on_event calm))
  classify session_lock m e =
      by_value (Class session_lock) _ m e (plain refl (session_lock-Keeps frame on_event calm))
  classify session_lock_surface m e =
      by_value (Class session_lock_surface) _ m e
        (plain refl (session_lock_surface-Keeps frame on_event calm))
  classify text_input m e =
      by_value (Class text_input) _ m e (plain refl (text_input-Keeps frame on_event calm))
  classify (other n) m e = elsewhere refl e
  classify compositor m e = cc
  classify shm_pool m e = cc
  classify data_device_manager m e = cc
  classify shell m e = cc
  classify region m e = cc
  classify subcompositor m e = cc
  classify subsurface m e = cc
  classify fixes m e = cc
  classify idle_notifier m e = cc
  classify cursor_shape_manager m e = cc
  classify cursor_shape_device m e = cc
  classify tablet_manager m e = cc
  classify session_lock_manager m e = cc
  classify text_input_manager m e = cc

  -- The same for `AbsorbNewIDs`.
  pub data AbsorbClass (kind : Kind) (m : ℕ → ℕ → List ℕ → M (Unit {0})) : Type 0 where
    known : ((p opcode : ℕ) (body : List ℕ) → Keeps R (m p opcode body)) → AbsorbClass kind m
    unknown : foreign.absorb_new_ids kind ≡ some m → AbsorbClass kind m

  pub classify_absorb :
      (kind : Kind) (m : ℕ → ℕ → List ℕ → M (Unit {0}))
      → absorb_new_ids on_event foreign kind ≡ some m
      → AbsorbClass kind m
  unfolding absorb_new_ids
  classify_absorb data_device m e =
      by_value (AbsorbClass data_device) _ m e (known (data_device_absorb-Keeps frame))
  classify_absorb tablet_seat m e =
      by_value (AbsorbClass tablet_seat) _ m e (known (tablet_seat_absorb-Keeps frame))
  classify_absorb tablet_pad_group m e =
      by_value (AbsorbClass tablet_pad_group) _ m e (known (tablet_pad_group_absorb-Keeps frame))
  classify_absorb tablet_pad m e =
      by_value (AbsorbClass tablet_pad) _ m e (known (tablet_pad_absorb-Keeps frame))
  classify_absorb (other n) m e = unknown e
  classify_absorb display m e = cc
  classify_absorb registry m e = cc
  classify_absorb callback m e = cc
  classify_absorb compositor m e = cc
  classify_absorb shm_pool m e = cc
  classify_absorb shm m e = cc
  classify_absorb buffer m e = cc
  classify_absorb data_offer m e = cc
  classify_absorb data_source m e = cc
  classify_absorb data_device_manager m e = cc
  classify_absorb shell m e = cc
  classify_absorb shell_surface m e = cc
  classify_absorb surface m e = cc
  classify_absorb seat m e = cc
  classify_absorb pointer m e = cc
  classify_absorb keyboard m e = cc
  classify_absorb touch m e = cc
  classify_absorb wl_output m e = cc
  classify_absorb region m e = cc
  classify_absorb subcompositor m e = cc
  classify_absorb subsurface m e = cc
  classify_absorb fixes m e = cc
  classify_absorb idle_notifier m e = cc
  classify_absorb idle_notification m e = cc
  classify_absorb cursor_shape_manager m e = cc
  classify_absorb cursor_shape_device m e = cc
  classify_absorb tablet_manager m e = cc
  classify_absorb tablet_tool m e = cc
  classify_absorb tablet m e = cc
  classify_absorb tablet_pad_ring m e = cc
  classify_absorb tablet_pad_strip m e = cc
  classify_absorb session_lock_manager m e = cc
  classify_absorb session_lock m e = cc
  classify_absorb session_lock_surface m e = cc
  classify_absorb text_input m e = cc
  classify_absorb text_input_manager m e = cc
