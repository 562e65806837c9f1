-- ===== src/Bindings/Departures.antt =====
-- The request bind of wl_registry, as a compositor reads it.
use sysc_wayland.Base.{
  ℕ, ◌+◌, ◌*◌, ◌<◌, ◌^◌, ◌≡◌, ◌∙◌, refl, ap, sym, List, [], ◌∷◌, ◌++◌, length, arith, length-append,
}
use mathlib.Core.List.{append_assoc}
use sysc_wayland.World.{World, done, proxy_id}
use sysc_wayland.Wire.{word, text, le32, ok, uint32_at, string_at, arg_size, args_size}
use sysc_wayland.Wire.Request.{encode_arg, encode_args, header_word, length-le32, length-encode_arg}
use sysc_wayland.Wire.RoundTrip.{uint32_at-le32, string_at-encode_arg}
use sysc_wayland.Send.{write_msg}
use sysc_wayland.Bindings.Announce.{frame, send_lem}
use sysc_wayland.Bindings.Arrivals.{IsText}
use sysc_wayland.Bindings.Requests.Registry.{bind}

-- The frame `b` is read as a bind on the object `id`: its first words are the object, the length and
-- the opcode 0, and its arguments are a name, an interface, a version and the ID of the new object.
pub record IsBind (id name version new_id : ℕ) (interface b : List ℕ) : Type 0 where
  pub object_word : uint32_at b 0 ≡ ok id
  pub size_word : uint32_at b 4 ≡ ok (length b * 65536)
  pub name_word : uint32_at b 8 ≡ ok name
  pub interface_text : string_at b 12 ≡ ok (interface, 12 + arg_size (text interface))
  pub version_word : uint32_at b (12 + arg_size (text interface)) ≡ ok version
  pub id_word : uint32_at b (16 + arg_size (text interface)) ≡ ok new_id
  pub whole : length b ≡ 20 + arg_size (text interface)

module _ (id name version new_id : ℕ) (interface : List ℕ) where
  abbrev bind_frame : List ℕ
  bind_frame = frame id 0 (word name ∷ text interface ∷ word version ∷ word new_id ∷ [])

  bind_frame-IsBind :
      id < 2 ^ 32
      → name < 2 ^ 32
      → version < 2 ^ 32
      → new_id < 2 ^ 32
      → IsText interface
      → 20 + arg_size (text interface) < 65536
      → IsBind id name version new_id interface bind_frame
  unfolding encode_args encode_arg header_word args_size arg_size le32
  bind_frame-IsBind i n v k (fits, nonzero) short =
      let args = word name ∷ text interface ∷ word version ∷ word new_id ∷ [] in
      let t = encode_arg (text interface) in
      let size = length-encode_arg (text interface) in
      let r5 = le32 new_id ++ [] in
      let r4 = le32 version ++ r5 in
      let r3 = t ++ r4 in
      let r2 = le32 name ++ r3 in
      let h = le32 (header_word 0 args) in
      let p2 = le32 id ++ h in
      let p3 = p2 ++ le32 name in
      let p4 = p3 ++ t in
      let p5 = p4 ++ le32 version in
      let l2 : length p2 ≡ 8 =
        omega
          (arith, length-append (le32 id) h, length-le32 id, length-le32 (header_word 0 args)) in
      let l3 : length p3 ≡ 12 = omega (arith, l2, length-append p2 (le32 name), length-le32 name) in
      let l4 : length p4 ≡ 12 + arg_size (text interface) =
        omega (arith, l3, length-append p3 t, size.0) in
      let l5 : length p5 ≡ 16 + arg_size (text interface) =
        omega (arith, l4, length-append p4 (le32 version), length-le32 version) in
      let e2 : bind_frame ≡ p2 ++ r2 = sym (append_assoc (le32 id) h r2) in
      let e3 : bind_frame ≡ p3 ++ r3 = e2 ∙ sym (append_assoc p2 (le32 name) r3) in
      let e4 : bind_frame ≡ p4 ++ r4 = e3 ∙ sym (append_assoc p3 t r4) in
      let e5 : bind_frame ≡ p5 ++ r5 = e4 ∙ sym (append_assoc p4 (le32 version) r5) in
      let whole : length bind_frame ≡ 20 + arg_size (text interface) =
        ap length e5
        ∙ omega
            (arith, l5, length-append p5 r5, length-append (le32 new_id) [], length-le32 new_id) in
      let head : header_word 0 args ≡ length bind_frame * 65536 = omega (arith, whole, short) in
      record {
        object_word = uint32_at-le32 [] (h ++ r2) 0 id refl i;
        size_word =
            uint32_at-le32 (le32 id) r2 4 (header_word 0 args) (length-le32 id)
              (omega (arith, whole, short))
            ∙ ap ok head;
        name_word = ap (λ b. uint32_at b 8) e2 ∙ uint32_at-le32 p2 r3 8 name l2 n;
        interface_text =
            ap (λ b. string_at b 12) e3 ∙ string_at-encode_arg p3 interface r4 12 l3 fits nonzero;
        version_word =
            ap (λ b. uint32_at b (12 + arg_size (text interface))) e4
            ∙ uint32_at-le32 p4 r5 _ version l4 v;
        id_word =
            ap (λ b. uint32_at b (16 + arg_size (text interface))) e5
            ∙ uint32_at-le32 p5 [] _ new_id l5 k;
        whole = whole;
      }

-- What `Registry.Bind` gives to `WriteMsg` is read by a compositor as a bind with the same contents:
-- the ID of the registry, the length of the frame, the opcode 0, the name, the interface, the
-- version, and the ID of the new object, in this order and with nothing behind them. The four
-- numbers are uint32s, the interface holds no NUL, and the frame is shorter than 65536 bytes.
pub bind-write_msg :
    (p name version q : ℕ) (interface : List ℕ) (w : World)
    → proxy_id p w < 2 ^ 32
    → name < 2 ^ 32
    → version < 2 ^ 32
    → proxy_id q w < 2 ^ 32
    → IsText interface
    → 20 + arg_size (text interface) < 65536
    → (b : List ℕ) × (bind p name interface version q w
        ≡ (let (e, w') = write_msg b [] w in done e w'))
      × IsBind (proxy_id p w) name version (proxy_id q w) interface b
unfolding bind
bind-write_msg p name version q interface w i n v k fits short = (
  bind_frame (proxy_id p w) name version (proxy_id q w) interface,
  send_lem p 0 (word name ∷ text interface ∷ word version ∷ word (proxy_id q w) ∷ []) [] w,
  bind_frame-IsBind (proxy_id p w) name version (proxy_id q w) interface i n v k fits short,
)
