-- ===== src/Bindings/Announce.antt =====
-- What a request that creates an object tells the server, and what it leaves in the table.
use sysc_wayland.Base.{
  ℕ, ◌<◌, ◌≡◌, ◌≢◌, ◌∙◌, refl, ap, List, [], ◌++◌, Option, none, some, lookup, arith,
}
use sysc_wayland.World.{
  World, Kind, Error, Panic, id_space_exhausted, Outcome, done, panicked, M, state, proxy_id, alloc,
}
use sysc_wayland.Wire.{Arg, le32}
use sysc_wayland.Wire.Request.{encode_args, header_word, request-encode_args}
use sysc_wayland.Ids.{first_server_id, install, register, new_object}
use sysc_wayland.Ids.Invariant.{IsValid}
use sysc_wayland.Ids.Allocate.{register-allocate, allocate_cases}
use sysc_wayland.Ids.Register.{Registers, register-Registers}
use sysc_wayland.Ids.Lifecycle.{alloc-IsValid}
use sysc_wayland.Send.{write_msg}
use sysc_wayland.Send.Delivery.{Delivers, rebase}
use sysc_wayland.Send.Checks.{write_msg_lem, objects-write_msg}
use sysc_wayland.Bindings.Objects.{lift, ◌>>=◌}
use sysc_wayland.Bindings.Requests.{write, send, create}

-- A request as the protocol lays it out.
abbrev pub frame : ℕ → ℕ → List Arg → List ℕ
frame id opcode args = le32 id ++ (le32 (header_word opcode args) ++ encode_args args)

abbrev sent : Option Error × World → Outcome (Option Error)
sent (e, w) = done e w

-- The body of a request never panics, and gives to `WriteMsg` the request as the protocol lays it
-- out, under the ID of the object it is called on.
pub send_lem :
    (p opcode : ℕ) (args : List Arg) (oob : List ℕ) (w : World)
    → send p opcode args oob w
      ≡ (let (e, w') = write_msg (frame (proxy_id p w) opcode args) oob w in done e w')
unfolding send ◌>>=◌ lift write
send_lem p opcode args oob w = rw (request-encode_args (proxy_id p w) opcode args) refl

abbrev SameSocket : World → Outcome (Unit {0}) → Type 0
SameSocket w o =
    ((state o).output ≡ w.output)
    × ((state o).output_oob ≡ w.output_oob)
    × ((state o).fatal_err ≡ w.fatal_err)

install-SameSocket : (p id : ℕ) (w : World) → SameSocket w (done tt (install p id w))
unfolding install
install-SameSocket p id w = (refl, refl, refl)

register-SameSocket : (p : ℕ) (w : World) → IsValid w → SameSocket w (register p w)
unfolding install
register-SameSocket p w v = rw (register-allocate p w v) (
    allocate_cases (SameSocket w) p w w.free_ids refl (λ _ _. (refl, refl, refl))
      (λ _ _. (refl, refl, refl)) (λ _ _ _. (refl, refl, refl)))

bind_done {ℓ κ} :
    {A : Type ℓ} {B : Type κ} (m : M A) (f : A → M B) (w w' : World) (a : A)
    → m w ≡ done a w'
    → (m >>= f) w ≡ f a w'
unfolding ◌>>=◌
bind_done m f w w' a e = rw (e, ◌>>=◌) refl

bind_panicked {ℓ κ} :
    {A : Type ℓ} {B : Type κ} (m : M A) (f : A → M B) (w w' : World) (q : Panic)
    → m w ≡ panicked q w'
    → (m >>= f) w ≡ panicked q w'
unfolding ◌>>=◌
bind_panicked m f w w' q e = rw (e, ◌>>=◌) refl

module _ (kind : Kind) (p opcode : ℕ) (args : ℕ → World → List Arg) where
  -- Either no ID is left, and nothing is sent; or the new object is in the table under an ID that was
  -- free, and this ID is what the request carries. `w₁` is the state in which the arguments are read.
  abbrev pub Announces : World → Outcome (ℕ × Option Error) → Type 0
  Announces w (panicked e w') = (e ≡ id_space_exhausted) × (w'.output ≡ w.output)
  Announces w (done (q, err) w') =
      (id : ℕ) × (w₁ : World) × (lookup id w.objects ≡ none)
      × (0 < id)
      × (id < first_server_id)
      × (lookup id w'.objects ≡ some q)
      × ((k : ℕ) → k ≢ id → lookup k w'.objects ≡ lookup k w.objects)
      × Delivers (frame (proxy_id p w) opcode (args id w₁)) [] w (err, w')

  pub create_sends :
      (w w₁ : World) (x : Unit {0})
      → register w.next_ref (state (alloc kind w)) ≡ done x w₁
      → create kind p opcode args w ≡ (
          let (err, w') =
            write_msg (frame (proxy_id p w₁) opcode (args (proxy_id w.next_ref w₁) w₁)) [] w₁ in
          done (w.next_ref, err) w')
  unfolding create new_object ◌>>=◌ alloc
  create_sends w w₁ x e =
      let id = proxy_id w.next_ref w₁ in
      bind_done (new_object kind) _ w w₁ w.next_ref
        (bind_done (register w.next_ref) (λ _ w'. done w.next_ref w') (state (alloc kind w)) w₁ x e)
      ∙ bind_done (send p opcode (args id w₁) []) (λ err w'. done (w.next_ref, err) w') w₁ _ _
          (send_lem p opcode (args id w₁) [] w₁)

  create_panics :
      (w w₁ : World) (q : Panic)
      → register w.next_ref (state (alloc kind w)) ≡ panicked q w₁
      → create kind p opcode args w ≡ panicked q w₁
  unfolding create new_object ◌>>=◌ alloc
  create_panics w w₁ q e = bind_panicked (new_object kind) _ w w₁ q (
      bind_panicked (register w.next_ref) (λ _ w'. done w.next_ref w') (state (alloc kind w)) w₁ q
        e)

  create_from :
      (w : World) (o : Outcome (Unit {0}))
      → register w.next_ref (state (alloc kind w)) ≡ o
      → w.fatal_err ≡ none
      → p < w.next_ref
      → Registers w.next_ref (state (alloc kind w)) o
      → SameSocket (state (alloc kind w)) o
      → Announces w (create kind p opcode args w)
  unfolding alloc proxy_id
  create_from w (panicked x w₁) e alive old (why, _) (out, _, _) =
      rw (create_panics w w₁ x e) (why, out)
  create_from w (done x w₁) e alive old (fresh, low, high, found, others, heap) (out, oob, fatal) =
      let id = proxy_id w.next_ref w₁ in
      let own : proxy_id p w₁ ≡ proxy_id p w =
        ap (λ x. x.id) (heap p (omega arith)) ∙ ground arith in
      let bytes = frame (proxy_id p w₁) opcode (args id w₁) in
      let (delivers, _, _) = write_msg_lem bytes [] w₁ (fatal ∙ alive) in
      let same = objects-write_msg bytes [] w₁ in
      rw (create_sends w w₁ x e) (
        id,
        w₁,
        fresh,
        low,
        high,
        ap (lookup id) same ∙ found,
        (λ k ne. ap (lookup k) same ∙ others k ne),
        rw (← own) (rebase bytes [] w w₁ (write_msg bytes [] w₁) out oob delivers),
      )

  -- A request with a new ID, called on an allocated object of a live connection whose table is
  -- well formed: either the client IDs have run out, the call panics and nothing is sent; or the
  -- new object stands in the table under an ID that was not in use, all other entries are as they
  -- were, and the request that reaches the socket carries that ID, whole if the call reports no
  -- error, and a prefix of it if it reports one.
  pub create-Announces :
      (w : World)
      → IsValid w
      → w.fatal_err ≡ none
      → p < w.next_ref
      → Announces w (create kind p opcode args w)
  create-Announces w v alive old =
      let (v', f) = alloc-IsValid kind w v in
      create_from w _ refl alive old (register-Registers w.next_ref _ v')
        (register-SameSocket w.next_ref _ v')
