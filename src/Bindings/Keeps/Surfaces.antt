-- ===== src/Bindings/Keeps/Surfaces.antt =====
-- The decoders of surfaces and outputs in client/client.go.
use sysc_wayland.Base.{ℕ, List, Option}
use sysc_wayland.World.{World, M}
use sysc_wayland.Bindings.Events.{Event}
use sysc_wayland.Bindings.Decoders.ShellSurface
use sysc_wayland.Bindings.Decoders.Surface
use sysc_wayland.Bindings.Decoders.Output
use sysc_wayland.Bindings.Keeps.{IsFrame, Keeps, keeps_rules}

module _ {R : World → World → Type 0} (frame : IsFrame R) (on_event : ℕ → Event → M (Unit {0}))
    (calm : (p : ℕ) (e : Event) → Keeps R (on_event p e)) where
  shell_surface_ping_event-Keeps :
      (p : ℕ) (body : List ℕ) → Keeps R (ShellSurface.ping_event on_event p body)
  unfolding ShellSurface.ping_event
  shell_surface_ping_event-Keeps p body = search (keeps_rules) depth 40

  shell_surface_configure_event-Keeps :
      (p : ℕ) (body : List ℕ) → Keeps R (ShellSurface.configure_event on_event p body)
  unfolding ShellSurface.configure_event
  shell_surface_configure_event-Keeps p body = search (keeps_rules) depth 40

  pub shell_surface-Keeps :
      (p opcode : ℕ) (fd : Option ℕ) (body : List ℕ)
      → Keeps R (ShellSurface.dispatch on_event p opcode fd body)
  unfolding ShellSurface.dispatch
  shell_surface-Keeps p opcode fd body =
      search (keeps_rules, shell_surface_ping_event-Keeps, shell_surface_configure_event-Keeps)
        depth 60

  surface_enter_event-Keeps :
      (p : ℕ) (body : List ℕ) → Keeps R (Surface.enter_event on_event p body)
  unfolding Surface.enter_event
  surface_enter_event-Keeps p body = search (keeps_rules) depth 40

  surface_leave_event-Keeps :
      (p : ℕ) (body : List ℕ) → Keeps R (Surface.leave_event on_event p body)
  unfolding Surface.leave_event
  surface_leave_event-Keeps p body = search (keeps_rules) depth 40

  surface_preferred_buffer_scale_event-Keeps :
      (p : ℕ) (body : List ℕ) → Keeps R (Surface.preferred_buffer_scale_event on_event p body)
  unfolding Surface.preferred_buffer_scale_event
  surface_preferred_buffer_scale_event-Keeps p body = search (keeps_rules) depth 40

  surface_preferred_buffer_transform_event-Keeps :
      (p : ℕ) (body : List ℕ) → Keeps R (Surface.preferred_buffer_transform_event on_event p body)
  unfolding Surface.preferred_buffer_transform_event
  surface_preferred_buffer_transform_event-Keeps p body = search (keeps_rules) depth 40

  pub surface-Keeps :
      (p opcode : ℕ) (fd : Option ℕ) (body : List ℕ)
      → Keeps R (Surface.dispatch on_event p opcode fd body)
  unfolding Surface.dispatch
  surface-Keeps p opcode fd body =
      search
        (
          keeps_rules, surface_enter_event-Keeps, surface_leave_event-Keeps,
          surface_preferred_buffer_scale_event-Keeps,
          surface_preferred_buffer_transform_event-Keeps,
        )
        depth 60

  output_geometry_event-Keeps :
      (p : ℕ) (body : List ℕ) → Keeps R (Output.geometry_event on_event p body)
  unfolding Output.geometry_event
  output_geometry_event-Keeps p body = search (keeps_rules) depth 40

  output_mode_event-Keeps : (p : ℕ) (body : List ℕ) → Keeps R (Output.mode_event on_event p body)
  unfolding Output.mode_event
  output_mode_event-Keeps p body = search (keeps_rules) depth 40

  output_scale_event-Keeps : (p : ℕ) (body : List ℕ) → Keeps R (Output.scale_event on_event p body)
  unfolding Output.scale_event
  output_scale_event-Keeps p body = search (keeps_rules) depth 40

  output_name_event-Keeps : (p : ℕ) (body : List ℕ) → Keeps R (Output.name_event on_event p body)
  unfolding Output.name_event
  output_name_event-Keeps p body = search (keeps_rules) depth 40

  output_description_event-Keeps :
      (p : ℕ) (body : List ℕ) → Keeps R (Output.description_event on_event p body)
  unfolding Output.description_event
  output_description_event-Keeps p body = search (keeps_rules) depth 40

  pub output-Keeps :
      (p opcode : ℕ) (fd : Option ℕ) (body : List ℕ)
      → Keeps R (Output.dispatch on_event p opcode fd body)
  unfolding Output.dispatch
  output-Keeps p opcode fd body =
      search
        (
          keeps_rules, output_geometry_event-Keeps, output_mode_event-Keeps,
          output_scale_event-Keeps, output_name_event-Keeps, output_description_event-Keeps,
        )
        depth 60
