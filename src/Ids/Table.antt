-- ===== src/Ids/Table.antt =====
-- The part of the state that the object table is about, and the steps that leave it alone.
use sysc_wayland.Base.{ℕ, ◌≡◌, refl, ap, List, [], ◌∷◌, Option, none, some, Option-cases, inl, inr}
use sysc_wayland.World.{World, Proxy, Error}
use sysc_wayland.Ids.Invariant.{IsValid}
use sysc_wayland.Fatal.{close_fds, close_received_fd, set_fatal, put_back_fd, record_display_error}

abbrev pub table : World → List (ℕ × ℕ) × List ℕ × ℕ × (ℕ → Proxy) × ℕ
table w = (w.objects, w.free_ids, w.current_id, w.heap, w.next_ref)

pub IsValid-table : (w w' : World) → table w' ≡ table w → IsValid w → IsValid w'
IsValid-table w w' e v =
    let objects : w'.objects ≡ w.objects = ap (λ t. t.0) e in
    let free : w'.free_ids ≡ w.free_ids = ap (λ t. t.1) e in
    let current : w'.current_id ≡ w.current_id = ap (λ t. t.2) e in
    let heap : w'.heap ≡ w.heap = ap (λ t. t.3) e in
    let next : w'.next_ref ≡ w.next_ref = ap (λ t. t.4) e in
    record {
      counter = rw current v.counter;
      free = rw (free, current, objects) v.free;
      live = rw (objects, current, heap, next) v.live;
    }

pub table-close_fds : (fds : List ℕ) (w : World) → table (close_fds fds w) ≡ table w
unfolding close_fds
table-close_fds [] w = refl
table-close_fds (fd ∷ fds) w = table-close_fds fds (record w { closed = fd ∷ w.closed })

pub table-set_fatal : (e : Error) (w : World) → table (set_fatal e w).1 ≡ table w
unfolding set_fatal
table-set_fatal e w = elim (Option-cases w.fatal_err) [
  | inr (old, dead) ↦ rw (dead, set_fatal) refl
  | inl alive ↦
      rw (alive, set_fatal)
        (table-close_fds w.pending_fds (record w { ctx = record (w.ctx) { fatal_err = some e } }))
]

pub table-close_received_fd : (fd : Option ℕ) (w : World) → table (close_received_fd fd w) ≡ table w
unfolding close_received_fd
table-close_received_fd none w = refl
table-close_received_fd (some fd) w = refl

pub table-put_back_fd : (fd : Option ℕ) (w : World) → table (put_back_fd fd w) ≡ table w
unfolding put_back_fd
table-put_back_fd none w = refl
table-put_back_fd (some fd) w = refl

pub table-record_display_error :
    (object : Option ℕ) (code : ℕ) (message : List ℕ) (w : World)
    → table (record_display_error object code message w) ≡ table w
unfolding record_display_error
table-record_display_error none code message w = table-set_fatal _ w
table-record_display_error (some p) code message w = table-set_fatal _ w
