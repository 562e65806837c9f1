-- ===== src/Bindings/Keeps/Core.antt =====
-- The decoders of the core objects and of data exchange in client/client.go, without descriptors.
use sysc_wayland.Base.{ℕ, List, Option, none}
use sysc_wayland.World.{World, M}
use sysc_wayland.Bindings.Events.{Event}
use sysc_wayland.Bindings.Decoders.Display
use sysc_wayland.Bindings.Decoders.Registry
use sysc_wayland.Bindings.Decoders.Callback
use sysc_wayland.Bindings.Decoders.Shm
use sysc_wayland.Bindings.Decoders.Buffer
use sysc_wayland.Bindings.Decoders.DataOffer
use sysc_wayland.Bindings.Decoders.DataSource
use sysc_wayland.Bindings.Decoders.DataDevice
use sysc_wayland.Bindings.Keeps.{
  IsFrame, Keeps, record_display_error-Keeps, delete_id-Keeps, keeps_rules,
}

module _ {R : World → World → Type 0} (frame : IsFrame R) (on_event : ℕ → Event → M (Unit {0}))
    (calm : (p : ℕ) (e : Event) → Keeps R (on_event p e)) where
  display_error_event-Keeps :
      (p : ℕ) (body : List ℕ) → Keeps R (Display.error_event on_event p body)
  unfolding Display.error_event
  display_error_event-Keeps p body = search (keeps_rules, record_display_error-Keeps) depth 40

  display_delete_id_event-Keeps :
      (p : ℕ) (body : List ℕ) → Keeps R (Display.delete_id_event on_event p body)
  unfolding Display.delete_id_event
  display_delete_id_event-Keeps p body = search (keeps_rules, delete_id-Keeps) depth 40

  pub display-Keeps :
      (p opcode : ℕ) (fd : Option ℕ) (body : List ℕ)
      → Keeps R (Display.dispatch on_event p opcode fd body)
  unfolding Display.dispatch
  display-Keeps p opcode fd body =
      search (keeps_rules, display_error_event-Keeps, display_delete_id_event-Keeps) depth 60

  registry_global_event-Keeps :
      (p : ℕ) (body : List ℕ) → Keeps R (Registry.global_event on_event p body)
  unfolding Registry.global_event
  registry_global_event-Keeps p body = search (keeps_rules) depth 40

  registry_global_remove_event-Keeps :
      (p : ℕ) (body : List ℕ) → Keeps R (Registry.global_remove_event on_event p body)
  unfolding Registry.global_remove_event
  registry_global_remove_event-Keeps p body = search (keeps_rules) depth 40

  pub registry-Keeps :
      (p opcode : ℕ) (fd : Option ℕ) (body : List ℕ)
      → Keeps R (Registry.dispatch on_event p opcode fd body)
  unfolding Registry.dispatch
  registry-Keeps p opcode fd body =
      search (keeps_rules, registry_global_event-Keeps, registry_global_remove_event-Keeps) depth 60

  callback_done_event-Keeps :
      (p : ℕ) (body : List ℕ) → Keeps R (Callback.done_event on_event p body)
  unfolding Callback.done_event
  callback_done_event-Keeps p body = search (keeps_rules) depth 40

  pub callback-Keeps :
      (p opcode : ℕ) (fd : Option ℕ) (body : List ℕ)
      → Keeps R (Callback.dispatch on_event p opcode fd body)
  unfolding Callback.dispatch
  callback-Keeps p opcode fd body = search (keeps_rules, callback_done_event-Keeps) depth 60

  shm_format_event-Keeps : (p : ℕ) (body : List ℕ) → Keeps R (Shm.format_event on_event p body)
  unfolding Shm.format_event
  shm_format_event-Keeps p body = search (keeps_rules) depth 40

  pub shm-Keeps :
      (p opcode : ℕ) (fd : Option ℕ) (body : List ℕ)
      → Keeps R (Shm.dispatch on_event p opcode fd body)
  unfolding Shm.dispatch
  shm-Keeps p opcode fd body = search (keeps_rules, shm_format_event-Keeps) depth 60

  pub buffer-Keeps :
      (p opcode : ℕ) (fd : Option ℕ) (body : List ℕ)
      → Keeps R (Buffer.dispatch on_event p opcode fd body)
  unfolding Buffer.dispatch
  buffer-Keeps p opcode fd body = search (keeps_rules) depth 60

  data_offer_offer_event-Keeps :
      (p : ℕ) (body : List ℕ) → Keeps R (DataOffer.offer_event on_event p body)
  unfolding DataOffer.offer_event
  data_offer_offer_event-Keeps p body = search (keeps_rules) depth 40

  data_offer_source_actions_event-Keeps :
      (p : ℕ) (body : List ℕ) → Keeps R (DataOffer.source_actions_event on_event p body)
  unfolding DataOffer.source_actions_event
  data_offer_source_actions_event-Keeps p body = search (keeps_rules) depth 40

  data_offer_action_event-Keeps :
      (p : ℕ) (body : List ℕ) → Keeps R (DataOffer.action_event on_event p body)
  unfolding DataOffer.action_event
  data_offer_action_event-Keeps p body = search (keeps_rules) depth 40

  pub data_offer-Keeps :
      (p opcode : ℕ) (fd : Option ℕ) (body : List ℕ)
      → Keeps R (DataOffer.dispatch on_event p opcode fd body)
  unfolding DataOffer.dispatch
  data_offer-Keeps p opcode fd body =
      search
        (
          keeps_rules, data_offer_offer_event-Keeps, data_offer_source_actions_event-Keeps,
          data_offer_action_event-Keeps,
        )
        depth 60

  pub data_source_target_event-Keeps :
      (p : ℕ) (body : List ℕ) → Keeps R (DataSource.target_event on_event p body)
  unfolding DataSource.target_event
  data_source_target_event-Keeps p body = search (keeps_rules) depth 40

  data_source_send_event-Keeps :
      (p : ℕ) (body : List ℕ) → Keeps R (DataSource.send_event on_event p none body)
  unfolding DataSource.send_event
  data_source_send_event-Keeps p body = search (keeps_rules) depth 40

  pub data_source_action_event-Keeps :
      (p : ℕ) (body : List ℕ) → Keeps R (DataSource.action_event on_event p body)
  unfolding DataSource.action_event
  data_source_action_event-Keeps p body = search (keeps_rules) depth 40

  pub data_source-Keeps :
      (p opcode : ℕ) (body : List ℕ) → Keeps R (DataSource.dispatch on_event p opcode none body)
  unfolding DataSource.dispatch
  data_source-Keeps p opcode body =
      search
        (
          keeps_rules, data_source_target_event-Keeps, data_source_send_event-Keeps,
          data_source_action_event-Keeps,
        )
        depth 60

  data_device_data_offer_event-Keeps :
      (p : ℕ) (body : List ℕ) → Keeps R (DataDevice.data_offer_event on_event p body)
  unfolding DataDevice.data_offer_event
  data_device_data_offer_event-Keeps p body = search (keeps_rules) depth 40

  data_device_enter_event-Keeps :
      (p : ℕ) (body : List ℕ) → Keeps R (DataDevice.enter_event on_event p body)
  unfolding DataDevice.enter_event
  data_device_enter_event-Keeps p body = search (keeps_rules) depth 40

  data_device_motion_event-Keeps :
      (p : ℕ) (body : List ℕ) → Keeps R (DataDevice.motion_event on_event p body)
  unfolding DataDevice.motion_event
  data_device_motion_event-Keeps p body = search (keeps_rules) depth 40

  data_device_selection_event-Keeps :
      (p : ℕ) (body : List ℕ) → Keeps R (DataDevice.selection_event on_event p body)
  unfolding DataDevice.selection_event
  data_device_selection_event-Keeps p body = search (keeps_rules) depth 40

  pub data_device-Keeps :
      (p opcode : ℕ) (fd : Option ℕ) (body : List ℕ)
      → Keeps R (DataDevice.dispatch on_event p opcode fd body)
  unfolding DataDevice.dispatch
  data_device-Keeps p opcode fd body =
      search
        (
          keeps_rules, data_device_data_offer_event-Keeps, data_device_enter_event-Keeps,
          data_device_motion_event-Keeps, data_device_selection_event-Keeps,
        )
        depth 60

pub data_device_absorb-Keeps :
    {R : World → World → Type 0} (frame : IsFrame R) (p opcode : ℕ) (body : List ℕ)
    → Keeps R (DataDevice.absorb_new_ids p opcode body)
unfolding DataDevice.absorb_new_ids
data_device_absorb-Keeps frame p opcode body = search keeps_rules depth 30
