-- ===== src/Bindings/Keeps/Dispatched.antt =====
-- What a whole `Dispatch` does to the state, with the generated decoders.
use sysc_wayland.Base.{
  ℕ, not, ◌&&◌, List, Option, none, some, ◌≡◌, refl, if◌then◌else◌, Bool-cases, inl, inr,
}
use sysc_wayland.World.{
  World, M, Kind, Error, Outcome, done, panicked, state, is_zombie, is_read_timeout,
  sender_not_found, sender_unsupported,
}
use sysc_wayland.Ids.{lookup_proxy}
use sysc_wayland.Fatal.{close_received_fd, set_fatal, put_back_fd}
use sysc_wayland.Socket.Kernel.{Unix}
use sysc_wayland.Socket.{Message, error, frame}
use sysc_wayland.Dispatch.Interfaces.{Methods}
use sysc_wayland.Dispatch.{
  dispatch_message, finish, deliver, handle, absorb, route_fd, recover, sticky, is_display,
}
use sysc_wayland.Bindings.Keeps.{Keeps}
use sysc_wayland.Bindings.Keeps.Owners.{IsOpen}

-- A relation that the steps of `Dispatch` around the methods respect.
pub record IsWide (R : World → World → Type 0) : Type 0 where
  pub isopen : IsOpen R
  pub puts_back : (fd : Option ℕ) (w : World) → R w (put_back_fd fd w)
  pub dies : (e : Error) (w : World) → R w (set_fatal e w).1

-- Methods of objects that respect a relation.
pub record Respects (R : World → World → Type 0) (methods : Methods) : Type 0 where
  pub dispatches :
      (kind : Kind) (m : ℕ → ℕ → Option ℕ → List ℕ → M (Unit {0}))
      → methods.dispatch kind ≡ some m
      → (p opcode : ℕ) (fd : Option ℕ) (body : List ℕ) → Keeps R (m p opcode fd body)
  pub absorbs :
      (kind : Kind) (m : ℕ → ℕ → List ℕ → M (Unit {0}))
      → methods.absorb_new_ids kind ≡ some m
      → (p opcode : ℕ) (body : List ℕ) → Keeps R (m p opcode body)

module _ {R : World → World → Type 0} (wide : IsWide R) where
  then_ : (u v w : World) → R u v → R v w → R u w
  then_ = wide.isopen.frame.then_

  sticky-keeps : (e : Error) (w : World) → R w (sticky e w).1
  unfolding sticky
  sticky-keeps e w = wide.dies e w

  recover-keeps :
      (sender opcode : ℕ) (fd : Option ℕ) (w : World) (o : Outcome (Unit {0}))
      → R w (state o)
      → R w (recover sender opcode fd o).1
  unfolding recover
  recover-keeps sender opcode fd w (done x w') h = h
  recover-keeps sender opcode fd w (panicked p w') h =
      then_ w w' _ h (then_ w' _ _ (wide.isopen.closes fd w') (sticky-keeps _ _))

  module _ (methods : Methods) (respects : Respects R methods) where
    handle-keeps :
        (unix : Unix) (p sender opcode : ℕ) (fd : Option ℕ) (body : List ℕ) (w : World)
        → R w (handle unix methods p sender opcode fd body w).1
    unfolding handle
    handle-keeps unix p sender opcode fd body w =
        elim (methods.dispatch (w.heap p).kind)
            as (λ found.
              methods.dispatch (w.heap p).kind ≡ found
              → R w (
                  (elim found as (λ _. Option Error × World) [
                    | none ↦ sticky (sender_unsupported sender) (close_received_fd fd w)
                    | some m ↦ recover sender opcode fd (m p opcode fd body w)
                  ]).1)) [
                    | none ↦ λ e. then_ w _ _ (wide.isopen.closes fd w) (sticky-keeps _ _)
                    | some m ↦ λ e.
                        recover-keeps sender opcode fd w _
                          ((respects.dispatches (w.heap p).kind m e p opcode fd body).keeps w)
                  ]
          refl

    absorb-keeps :
        (unix : Unix) (p sender opcode : ℕ) (fd : Option ℕ) (body : List ℕ) (w : World)
        → R w (absorb unix methods p sender opcode fd body w).1
    unfolding absorb
    absorb-keeps unix p sender opcode fd body w =
        let w' = close_received_fd fd w in
        let closed : R w w' = wide.isopen.closes fd w in
        elim (methods.absorb_new_ids (w.heap p).kind)
            as (λ found.
              methods.absorb_new_ids (w.heap p).kind ≡ found
              → R w (
                  (elim found as (λ _. Option Error × World) [
                    | none ↦ finish w'
                    | some m ↦ recover sender opcode none (m p opcode body w')
                  ]).1)) [
                    | none ↦ λ e. closed
                    | some m ↦ λ e. then_ w w' _ closed (
                        recover-keeps sender opcode none w' _
                          ((respects.absorbs (w.heap p).kind m e p opcode body).keeps w'))
                  ]
          refl

    route_fd-keeps :
        (unix : Unix) (kind : Kind) (opcode : ℕ) (fd : Option ℕ) (w : World)
        → R w (route_fd unix methods kind opcode fd w).1
    unfolding route_fd
    route_fd-keeps unix kind opcode fd w =
        elim (methods.has_fd kind)
          as (λ found. R w (
            (elim found as (λ _. Option ℕ × World) [
              | none ↦ (fd, w)
              | some f ↦ if not (f opcode) then (none, put_back_fd fd w) else (fd, w)
            ]).1)) [
              | none ↦ wide.isopen.frame.same w
              | some f ↦ elim (Bool-cases (not (f opcode))) [
                | inl without ↦ rw without (wide.puts_back fd w)
                | inr carries ↦ rw carries (wide.isopen.frame.same w)
              ]
            ]

    deliver-keeps :
        (unix : Unix) (p sender opcode : ℕ) (fd : Option ℕ) (body : List ℕ) (w : World)
        → R w (deliver unix methods p sender opcode fd body w).1
    unfolding deliver
    deliver-keeps unix p sender opcode fd body w =
        let r = route_fd unix methods (w.heap p).kind opcode fd w in
        let fd' = r.0 in
        let w' = r.1 in
        let routed : R w w' = route_fd-keeps unix (w.heap p).kind opcode fd w in
        elim (Bool-cases (is_zombie p w' && not (is_display (w'.heap p).kind))) [
          | inl dead ↦ rw dead (then_ w w' _ routed (absorb-keeps unix p sender opcode fd' body w'))
          | inr live ↦ rw live (then_ w w' _ routed (handle-keeps unix p sender opcode fd' body w'))
        ]

    pub dispatch_message-keeps :
        (unix : Unix) (m : Message) (w : World) → R w (dispatch_message unix methods (m, w)).1
    unfolding dispatch_message
    dispatch_message-keeps unix (error e) w = elim (Bool-cases (is_read_timeout e)) [
      | inl late ↦ rw late (wide.isopen.frame.same w)
      | inr bad ↦ rw bad (sticky-keeps _ w)
    ]
    dispatch_message-keeps unix (frame sender opcode fd msg) w =
        elim (lookup_proxy sender w)
          as (λ found. R w (
            (elim found as (λ _. Option Error × World) [
              | none ↦ sticky (sender_not_found sender) (close_received_fd fd w)
              | some p ↦ deliver unix methods p sender opcode fd msg w
            ]).1)) [
              | none ↦ then_ w _ _ (wide.isopen.closes fd w) (sticky-keeps _ _)
              | some p ↦ deliver-keeps unix p sender opcode fd msg w
            ]
