-- ===== src/Bindings/Keeps/Whole.antt =====
-- A whole `Dispatch` with the generated decoders: the table of objects, and the input.
use sysc_wayland.Base.{
  ℕ, ◌≤◌, ◌<◌, ◌≡◌, sym, refl, List, Option, none, some, length, Bool-cases, arith, inl, inr,
}
use mathlib.Core.Path.{subst}
use sysc_wayland.World.{World, M, Kind, Error, is_read_timeout}
use sysc_wayland.Fatal.{close_received_fd, put_back_fd}
use sysc_wayland.Ids.Invariant.{IsValid}
use sysc_wayland.Ids.Table.{
  IsValid-table, table, table-close_received_fd, table-put_back_fd, table-set_fatal,
}
use sysc_wayland.Socket.Kernel.{Unix}
use sysc_wayland.Socket.{read_msg, Message, error, frame}
use sysc_wayland.Socket.Reading.{Reads, Shrinks, read_msg-Reads, read_msg-Shrinks, input-set_fatal}
use sysc_wayland.Dispatch.Interfaces.{Methods}
use sysc_wayland.Dispatch.{dispatch, dispatch_message, sticky}
use sysc_wayland.Bindings.Events.{Event}
use sysc_wayland.Bindings.Objects.{own}
use sysc_wayland.Bindings.Table.{generated}
use sysc_wayland.Bindings.Classes.{
  Class, plain, sends, keymaps, elsewhere, classify, AbsorbClass, known, unknown, classify_absorb,
}
use sysc_wayland.Bindings.Keeps.{Keeps}
use sysc_wayland.Bindings.Keeps.Tables.{StaysValid, StaysValid-IsFrame}
use sysc_wayland.Bindings.Keeps.Inputs.{ReadsOn, ReadsOn-IsFrame}
use sysc_wayland.Bindings.Keeps.Owners.{IsOpen, data_source-Keeps_fd, keyboard-Keeps_fd}
use sysc_wayland.Bindings.Keeps.Dispatched.{IsWide, Respects, dispatch_message-keeps}

module _ {R : World → World → Type 0} (o : IsOpen R) (on_event : ℕ → Event → M (Unit {0}))
    (calm : (p : ℕ) (e : Event) → Keeps R (on_event p e)) (foreign : Methods)
    (respects : Respects R foreign) where
  dispatches :
      (kind : Kind) (m : ℕ → ℕ → Option ℕ → List ℕ → M (Unit {0}))
      → Class (o.frame) on_event calm foreign kind m
      → (p opcode : ℕ) (fd : Option ℕ) (body : List ℕ) → Keeps R (m p opcode fd body)
  dispatches kind m (plain has h) p opcode fd body = h p opcode fd body
  dispatches kind m (sends has e) p opcode fd body =
      subst (λ n. Keeps R (n p opcode fd body)) (sym e)
        (data_source-Keeps_fd o on_event calm p opcode fd body)
  dispatches kind m (keymaps has e) p opcode fd body =
      subst (λ n. Keeps R (n p opcode fd body)) (sym e)
        (keyboard-Keeps_fd o on_event calm p opcode fd body)
  dispatches kind m (elsewhere same e) p opcode fd body =
      respects.dispatches kind m e p opcode fd body

  absorbs :
      (kind : Kind) (m : ℕ → ℕ → List ℕ → M (Unit {0}))
      → AbsorbClass (o.frame) on_event calm foreign kind m
      → (p opcode : ℕ) (body : List ℕ) → Keeps R (m p opcode body)
  absorbs kind m (known h) p opcode body = h p opcode body
  absorbs kind m (unknown e) p opcode body = respects.absorbs kind m e p opcode body

  generated-Respects : Respects R (generated on_event foreign)
  generated-Respects = record {
    dispatches = λ kind m e. dispatches kind m (classify (o.frame) on_event calm foreign kind m e);
    absorbs = λ kind m e. absorbs kind m (classify_absorb (o.frame) on_event calm foreign kind m e);
  }

StaysValid-IsWide : IsWide StaysValid
unfolding own
StaysValid-IsWide = record {
  isopen = record {
    frame = StaysValid-IsFrame;
    closes = λ fd w. IsValid-table w _ (table-close_received_fd fd w);
    owns = λ fd w. IsValid-table w _ (table-own fd w);
  };
  puts_back = λ fd w. IsValid-table w _ (table-put_back_fd fd w);
  dies = λ e w. IsValid-table w _ (table-set_fatal e w);
}
  where
    table-own : (fd : Option ℕ) (w : World) → table (own fd w) ≡ table w
    table-own none w = refl
    table-own (some fd) w = refl

ReadsOn-IsWide : IsWide ReadsOn
unfolding own close_received_fd put_back_fd
ReadsOn-IsWide = record {
  isopen = record {
    frame = ReadsOn-IsFrame;
    closes = λ fd w. ground arith;
    owns = λ fd w. ground arith;
  };
  puts_back = λ fd w. ground arith;
  dies = λ e w. rw (input-set_fatal e w) (omega arith);
}

-- What follows the reading of a message, and the reading itself.
Consumes : World → Option Error × World → Type 0
Consumes w r =
    (length r.1.input ≤ length w.input) × (r.0 ≡ none → length r.1.input < length w.input)

error-not_nil :
    (unix : Unix) (methods : Methods) (e : Error) (w : World)
    → (dispatch_message unix methods (error e, w)).0 ≡ none
    → ⊥
unfolding dispatch_message sticky
error-not_nil unix methods e w nil = elim (Bool-cases (is_read_timeout e)) [
  | inl late ↦ cc
  | inr bad ↦ cc
]

dispatch_message-Consumes :
    (unix : Unix) (methods : Methods) (respects : Respects ReadsOn methods) (v : World)
    (m : Message) (w : World)
    → Reads v (m, w)
    → Shrinks v (m, w)
    → Consumes v (dispatch_message unix methods (m, w))
unfolding Consumes Shrinks
dispatch_message-Consumes unix methods respects v (error e) w h less =
    let after = dispatch_message-keeps ReadsOn-IsWide methods respects unix (error e) w in
    (ground (arith, after, h.input), λ nil. absurd (error-not_nil unix methods e w nil))
dispatch_message-Consumes unix methods respects v (frame sender opcode fd msg) w h less =
    let after =
      dispatch_message-keeps ReadsOn-IsWide methods respects unix (frame sender opcode fd msg) w in
    (ground (arith, after, h.input), λ nil. ground (arith, after, less))

module _ (unix : Unix) (on_event : ℕ → Event → M (Unit {0})) (foreign : Methods) where
  -- `Dispatch` with the decoders of the bindings keeps the table of objects well formed, whatever
  -- the bytes that arrive and whether it returns nil or an error: no released ID is live, none is
  -- queued twice, and each entry is an allocated object that bears its ID. It is assumed that the
  -- handlers of the application and the methods of the types that are not modelled keep the table
  -- well formed.
  pub dispatch-IsValid :
      (calm : (p : ℕ) (e : Event) → Keeps StaysValid (on_event p e))
      (respects : Respects StaysValid foreign) (w : World)
      → IsValid w
      → IsValid (dispatch unix (generated on_event foreign) w).1
  unfolding dispatch
  dispatch-IsValid calm respects w v =
      let all = generated-Respects (StaysValid-IsWide.isopen) on_event calm foreign respects in
      let r = read_msg unix w in
      elim w.fatal_err
        as (λ x.
          IsValid
            (elim x as (λ _. Option Error × World) [
              | some e ↦ (some e, w)
              | none ↦ dispatch_message unix (generated on_event foreign) r
            ]).1) [
              | none ↦
                  dispatch_message-keeps StaysValid-IsWide (generated on_event foreign) all unix r.0
                    r.1 (IsValid-table w r.1 (read_msg-Reads unix w).objects v)
              | some e ↦ v
            ]

  -- A `Dispatch` that returns nil has taken at least one read from the socket, and no `Dispatch`
  -- puts one back, if the handlers of the application and the methods of the types that are not
  -- modelled add none.
  pub dispatch-Consumes :
      (calm : (p : ℕ) (e : Event) → Keeps ReadsOn (on_event p e))
      (respects : Respects ReadsOn foreign) (w : World)
      → let r = dispatch unix (generated on_event foreign) w in
        (length r.1.input ≤ length w.input) × (r.0 ≡ none → length r.1.input < length w.input)
  unfolding dispatch Consumes
  dispatch-Consumes calm respects w =
      let all = generated-Respects (ReadsOn-IsWide.isopen) on_event calm foreign respects in
      let r = read_msg unix w in
      elim w.fatal_err
        as (λ x. Consumes w (elim x as (λ _. Option Error × World) [
          | some e ↦ (some e, w)
          | none ↦ dispatch_message unix (generated on_event foreign) r
        ])) [
          | none ↦
              dispatch_message-Consumes unix (generated on_event foreign) all w r.0 r.1
                (read_msg-Reads unix w) (read_msg-Shrinks unix w)
          | some e ↦ (omega arith, λ nil. cc)
        ]
