-- ===== src/Bindings/Keeps.antt =====
-- What the decoders of the bindings do to the state, for any relation that the steps of a decoder
-- respect: one rule for each way to build a decoder.
pub mod Totals
pub mod Tables
pub mod Inputs
pub mod Owners
pub mod Dispatched
pub mod Whole
pub mod Core
pub mod Surfaces
pub mod Input
pub mod Idle
pub mod Tablet
pub mod Pads
pub mod SessionLock
pub mod TextInput
use sysc_wayland.Base.{
  ℕ, Bool, true, false, List, Option, none, some, if◌then◌else◌, Bool-cases, inl, inr,
}
use sysc_wayland.World.{
  World, Kind, Outcome, done, panicked, M, state, pure, throw, gets, modify, mark_zombie, Panic,
}
use sysc_wayland.Wire.{Checked, ok, fail}
use sysc_wayland.Ids.{delete_id, new_object_with_id}
use sysc_wayland.Fatal.{record_display_error, close_received_fd}
use sysc_wayland.Bindings.Events.{Event}
use sysc_wayland.Bindings.Objects.{
  lift, if_handled, if_handled_fd, call, own, introduce, introduced, absorb_new_id, ◌>>=◌,
}

-- A relation between the state before and the state after, with the steps that decoders take.
pub record IsFrame (R : World → World → Type 0) : Type 0 where
  pub same : (w : World) → R w w
  pub then_ : (u v w : World) → R u v → R v w → R u w
  pub records :
      (object : Option ℕ) (code : ℕ) (message : List ℕ) (w : World)
      → R w (record_display_error object code message w)
  pub deletes : (id : ℕ) (w : World) → R w (delete_id id w)
  pub introduces : (kind : Kind) (id : ℕ) (w : World) → R w (state (new_object_with_id kind id w))
  pub destroys : (p : ℕ) (w : World) → R w (mark_zombie p w)

-- However the call ends, the state is related to the one at its start.
pub record Keeps {ℓ} {A : Type ℓ} (R : World → World → Type 0) (m : M A) : Type 0 where
  pub keeps : (w : World) → R w (state (m w))

module _ {R : World → World → Type 0} (frame : IsFrame R) where
  pub Keeps-bind {ℓ κ} :
      {A : Type ℓ} {B : Type κ} {m : M A} {f : A → M B}
      → Keeps R m
      → ((x : A) → Keeps R (f x))
      → Keeps R (m >>= f)
  unfolding ◌>>=◌
  Keeps-bind {A} {B} {m} {f} hm hf = record { keeps = λ w. go w (m w) (hm.keeps w) }
    where
      go :
          (w : World) (o : Outcome A)
          → R w (state o)
          → R w (state {A = B} (elim o [ done x w' ↦ f x w' | panicked p w' ↦ panicked p w' ]))
      go w (done x w') h = frame.then_ w w' _ h ((hf x).keeps w')
      go w (panicked p w') h = h

  pub Keeps-pure {ℓ} : {A : Type ℓ} (x : A) → Keeps R (pure x)
  Keeps-pure x = record { keeps = frame.same }

  pub Keeps-read {ℓ κ} :
      {A : Type ℓ} {B : Type κ} (c : Checked A) {f : A → M B}
      → ((x : A) → Keeps R (f x))
      → Keeps R (lift c >>= f)
  unfolding lift
  Keeps-read (ok x) h = Keeps-bind (record { keeps = frame.same }) h
  Keeps-read (fail p) h = Keeps-bind (record { keeps = frame.same }) h

  pub Keeps-gets {ℓ κ} :
      {A : Type ℓ} {B : Type κ} (g : World → A) {f : A → M B}
      → ((x : A) → Keeps R (f x))
      → Keeps R (gets g >>= f)
  Keeps-gets g h = Keeps-bind (record { keeps = frame.same }) h

  pub Keeps-if {ℓ} :
      {A : Type ℓ} (b : Bool) {m n : M A} → Keeps R m → Keeps R n → Keeps R (if b then m else n)
  Keeps-if true hm hn = hm
  Keeps-if false hm hn = hn

  pub Keeps-throw {ℓ} : {A : Type ℓ} (p : Panic) → Keeps R (throw {A = A} p)
  Keeps-throw p = record { keeps = frame.same }

  pub Keeps-handled : (p n : ℕ) {m : M (Unit {0})} → Keeps R m → Keeps R (if_handled p n m)
  unfolding if_handled
  Keeps-handled p n h = record {
    keeps = λ w. elim (Bool-cases ((w.heap p).handler n)) [
      | inl set ↦ rw set (h.keeps w)
      | inr nil ↦ rw nil (frame.same w)
    ];
  }

  pub Keeps-handled_fd :
      (p n : ℕ) {m : M (Unit {0})} → Keeps R m → Keeps R (if_handled_fd p n none m)
  unfolding if_handled_fd close_received_fd
  Keeps-handled_fd p n h = record {
    keeps = λ w. elim (Bool-cases ((w.heap p).handler n)) [
      | inl set ↦ rw set (h.keeps w)
      | inr nil ↦ rw nil (frame.same w)
    ];
  }

  pub record_display_error-Keeps :
      (object : Option ℕ) (code : ℕ) (message : List ℕ)
      → Keeps R (modify (record_display_error object code message))
  record_display_error-Keeps object code message = record {
    keeps = frame.records object code message;
  }

  pub delete_id-Keeps : (id : ℕ) → Keeps R (modify (delete_id id))
  delete_id-Keeps id = record { keeps = frame.deletes id }

  mark_zombie-Keeps : (p : ℕ) → Keeps R (modify (mark_zombie p))
  mark_zombie-Keeps p = record { keeps = frame.destroys p }

  new_object_with_id-Keeps : (kind : Kind) (id : ℕ) → Keeps R (new_object_with_id kind id)
  new_object_with_id-Keeps kind id = record { keeps = frame.introduces kind id }

  introduced-Keeps : (kind : Kind) (id : ℕ) (live : Option ℕ) → Keeps R (introduced kind id live)
  unfolding introduced
  introduced-Keeps kind id (some p) = Keeps-pure _
  introduced-Keeps kind id none =
      Keeps-if _ (Keeps-pure _) (Keeps-bind (new_object_with_id-Keeps kind id) (λ p. Keeps-pure _))

  pub introduce-Keeps : (kind : Kind) (id : ℕ) → Keeps R (introduce kind id)
  unfolding introduce
  introduce-Keeps kind id = Keeps-gets _ (introduced-Keeps kind id)

  pub absorb_new_id-Keeps : (kind : Kind) (id : ℕ) → Keeps R (absorb_new_id kind id)
  unfolding absorb_new_id
  absorb_new_id-Keeps kind id =
      Keeps-if _ (Keeps-pure _) (Keeps-bind (new_object_with_id-Keeps kind id) mark_zombie-Keeps)

  module _ (on_event : ℕ → Event → M (Unit {0}))
      (calm : (p : ℕ) (e : Event) → Keeps R (on_event p e)) where
    pub Keeps-call : (p : ℕ) (e : Event) → Keeps R (call on_event p e none)
    unfolding call own
    Keeps-call p e = Keeps-bind (calm p e) (λ _. record { keeps = frame.same })

pub ruleset keeps_rules = (
  Keeps-if, Keeps-handled, Keeps-handled_fd, Keeps-bind, Keeps-read, Keeps-gets, Keeps-call,
  Keeps-throw, Keeps-pure, introduce-Keeps, absorb_new_id-Keeps,
)
