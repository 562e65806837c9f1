-- ===== src/Send.antt =====
-- Writing frames: `writeFrame` and `WriteMsg` of client/request.go.
pub mod Delivery
pub mod Beside
pub mod Checks
use sysc_wayland.Base.{
  ℕ, zero, suc, ◌+◌, ◌-◌, ◌*◌, ◌/◌, ◌%◌, ◌^◌, Bool, true, false, not, ◌&&◌, ◌||◌, List, [], ◌∷◌,
  ◌++◌, Option, none, some, ltb, leb, ◌==◌, if◌then◌else◌, length, take, drop,
}
use sysc_wayland.World.{
  World, Sent, Error, partial_frame, no_progress, invalid_count, invalid_ancillary, short_ancillary,
  frame_size, io,
}
use sysc_wayland.Wire.{word_at}
use sysc_wayland.Fatal.{set_fatal}

-- The error number of a write to a peer that has gone.
abbrev pub epipe : ℕ
epipe = 32

-- The loop of `writeFrame` over the plain writes; `rest` is `data[offset:]`.
unfoldable pub write_rest : List Sent → List ℕ → World → Option Error × World
write_rest script [] w = (none, record w { writes = script })
write_rest [] (b ∷ rest) w = (some (partial_frame (io epipe)), record w { writes = [] })
write_rest (s ∷ script) (b ∷ rest) w = elim s.wrote [
  | none ↦ (some (partial_frame (invalid_count none)), record w { writes = script })
  | some n ↦
      let sent = record w { writes = script; output = w.output ++ take n (b ∷ rest) } in
      let more = write_rest script (drop n (b ∷ rest)) sent in
      if ltb (length (b ∷ rest)) n
      then (some (partial_frame (invalid_count (some n))), record w { writes = script })
      else elim s.write_err [
        | some e ↦ (some (partial_frame e), sent)
        | none ↦ if n == 0 then (some (partial_frame no_progress), sent) else more
      ]
]

-- `writeFrame` behind the checks of the two counts of the first write.
unfoldable pub write_accepted : Sent → ℕ → ℕ → List ℕ → List ℕ → World → Option Error × World
write_accepted s n m bytes oob w =
    let accepted = ltb 0 n || ltb 0 m in
    let sent = record w {
      output = w.output ++ take n bytes;
      output_oob = w.output_oob ++ take m oob;
    } in
    if not (m == length oob)
    then (some (partial_frame (short_ancillary m (length oob))), sent)
    else elim s.write_err [
      | some e ↦ (some (if accepted then partial_frame e else e), sent)
      | none ↦
          if n == 0
          then (some (if accepted then partial_frame no_progress else no_progress), sent)
          else write_rest w.writes (drop n bytes) sent
    ]

-- `writeFrame` once the first write has come back.
unfoldable pub write_first : Sent → List ℕ → List ℕ → World → Option Error × World
write_first s bytes oob w = elim s.wrote [
  | none ↦ (some (partial_frame (invalid_count none)), w)
  | some n ↦
      if ltb (length bytes) n
      then (some (partial_frame (invalid_count (some n))), w)
      else elim s.wrote_oob [
        | none ↦ (some (partial_frame (invalid_ancillary none)), w)
        | some m ↦
            if ltb (length oob) m
            then (some (partial_frame (invalid_ancillary (some m))), w)
            else write_accepted s n m bytes oob w
      ]
]

-- Behind the script a write accepts nothing and fails.
unfoldable pub write_frame : List ℕ → List ℕ → World → Option Error × World
write_frame bytes oob w = elim w.writes [
  | [] ↦
      write_first (record { wrote = some 0; wrote_oob = some 0; write_err = some (io epipe) }) bytes
        oob w
  | s ∷ script ↦ write_first s bytes oob (record w { writes = script })
]

-- The first check of `WriteMsg`.
unfoldable pub is_frame : List ℕ → Bool
is_frame b = not (
    ltb (length b) 8
    || (ltb 65535 (length b)
        || (not (length b % 4 == 0) || not (word_at b 4 / 65536 == length b % 2 ^ 32))))

unfoldable pub write_msg : List ℕ → List ℕ → World → Option Error × World
write_msg b oob w = elim w.fatal_err [
  | some e ↦ (some e, w)
  | none ↦
      if not (is_frame b)
      then (some (frame_size (length b)), w)
      else let (err, w') = write_frame b oob w in
        elim err [
          | none ↦ (none, w')
          | some e ↦ let (fatal, w'') = set_fatal e w' in (some fatal, w'')
        ]
]
