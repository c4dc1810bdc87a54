-- ===== src/Sync/Pipe/Tests.antt =====
-- Witnesses and tests.
use cofuos.Prelude.{
  ◌+◌, ◌≡◌, ◌==◌, true, false, not, ◌&&◌, [], ◌∷◌, ◌++◌, arith, length, take, drop,
}
use cofuos.Sync.Pipe.{Pipe, read, write}
use cofuos.Sync.Pipe.Fifo.{IsValid, contents, accepted, read_lem, write_lem}

-- A pipe of four places that holds 30 and 31, round the end of its buffer.
abbrev two_bytes : Pipe
two_bytes = record {
  mode = 1;
  iostate = 0;
  limit = 4;
  buffer = 31 ∷ 0 ∷ 0 ∷ 30 ∷ [];
  head = 3;
  tail = 1;
}

two_bytes-IsValid : IsValid two_bytes
two_bytes-IsValid = record {
  storage = omega arith;
  small = omega arith;
  head_in = omega arith;
  tail_in = omega arith;
}

read_lem_example :
    let r = read false 1 two_bytes in
    (r.bytes ≡ take 1 (contents two_bytes))
    × (contents r.after ≡ drop 1 (contents two_bytes))
    × (r.notify ≡ (not (length r.bytes == 0) && (length (contents two_bytes) + 1 == 4)))
    × (r.after.iostate ≡ 0)
    × IsValid r.after
read_lem_example = read_lem false 1 two_bytes two_bytes-IsValid

write_lem_example :
    let w = write true (32 ∷ 33 ∷ []) two_bytes in
    (w.count ≡ accepted true 2 two_bytes)
    × (contents w.after ≡ contents two_bytes ++ take w.count (32 ∷ 33 ∷ []))
    × (w.notify ≡ (not (w.count == 0) && (length (contents two_bytes) == 0)))
    × (w.after.iostate ≡ 0)
    × IsValid w.after
write_lem_example = write_lem true (32 ∷ 33 ∷ []) two_bytes two_bytes-IsValid
