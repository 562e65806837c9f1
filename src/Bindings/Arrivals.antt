-- ===== src/Bindings/Arrivals.antt =====
-- Events of wl_registry and wl_display that a compositor encodes, at their decoders.
use sysc_wayland.Base.{
  All, ℕ, ◌+◌, ◌<◌, ◌^◌, ◌≡◌, refl, true, List, [], ◌∷◌, ◌++◌, Option, none, length, arith,
  length-append,
}
use mathlib.Core.List.{append_assoc}
use sysc_wayland.World.{World, M}
use sysc_wayland.Wire.{word, text, le32, ok, uint32_at, string_at, arg_size}
use sysc_wayland.Wire.Request.{encode_arg, encode_args, length-le32, length-encode_arg}
use sysc_wayland.Wire.RoundTrip.{uint32_at-le32, string_at-encode_arg}
use sysc_wayland.Bindings.Events.{Event, RegistryEvent}
use sysc_wayland.Bindings.Objects.{lift, if_handled, call, ◌>>=◌}
use sysc_wayland.Bindings.Decoders.Registry

-- A text that the wire can carry.
abbrev pub IsText : List ℕ → Type 0
IsText s = (length s + 1 < 2 ^ 32) × All (λ c. 0 < c) s

module _ (on_event : ℕ → Event → M (Unit {0})) where
  -- A global that the compositor announces reaches the handler with the name, the interface and the
  -- version that it was sent with. A handler is set, the numbers are uint32s, and the interface holds
  -- no NUL.
  pub dispatch-global :
      (p name version : ℕ) (interface : List ℕ) (fd : Option ℕ) (w : World)
      → name < 2 ^ 32
      → version < 2 ^ 32
      → IsText interface
      → (w.heap p).handler 0 ≡ true
      → Registry.dispatch on_event p 0 fd
          (encode_args (word name ∷ text interface ∷ word version ∷ []))
          w
        ≡ call on_event p (Event.registry (RegistryEvent.global name interface version)) none w
  unfolding Registry.dispatch Registry.global_event ◌>>=◌ lift if_handled encode_args encode_arg
  dispatch-global p name version interface fd w n v (fits, nonzero) set =
      let mid = encode_arg (text interface) in
      let rest = le32 version ++ [] in
      let l = 4 + arg_size (text interface) in
      let a : uint32_at (le32 name ++ (mid ++ rest)) 0 ≡ ok name =
        uint32_at-le32 [] (mid ++ rest) 0 name refl n in
      let b : string_at (le32 name ++ (mid ++ rest)) 4 ≡ ok (interface, l) =
        string_at-encode_arg (le32 name) interface rest 4 (length-le32 name) fits nonzero in
      let c : uint32_at (le32 name ++ (mid ++ rest)) l ≡ ok version =
        rw (← append_assoc (le32 name) mid rest) (
          uint32_at-le32 (le32 name ++ mid) [] l version
            (omega (
              arith,
              length-append (le32 name) mid,
              length-le32 name,
              (length-encode_arg (text interface)).0,
            ))
            v) in
      rw (set, a) (rw b (rw c refl))
