-- ===== src/Net.antt =====
-- source_codes/stardictd/src/net.cpp: reading a line from the client's socket and writing to it.
-- The input is the list of the bytes that `read` will return one at a time; behind it `read` returns
-- 0 or an error. The system call `write` is a parameter: it takes the bytes left and the socket's
-- state, and returns its count with the new state.
pub mod Lines
pub mod Writes
use stardictd.Base.{
  ℕ, zero, suc, ◌+◌, Bool, true, false, List, [], ◌∷◌, ◌++◌, Option, none, some, Bytes, ltb, ◌==◌,
  if◌then◌else◌, take, drop, length,
}
use stardictd.Base.Int.{ℤ, pos, negsuc}

abbrev pub line_limit : ℕ
line_limit = 10240

-- The loop of `net_read_line`, with what is behind the line: (whether it fails, the line, the rest).
unfoldable pub read_on : Bytes → ℕ → Bytes → Bool × Bytes × Bytes
read_on [] read_len buf = (true, buf, [])
read_on (c ∷ input) read_len buf =
    let kept = if c == 13 then buf else buf ++ c ∷ [] in
    let more = read_on input (read_len + 1) kept in
    if ltb line_limit (read_len + 1)
    then (true, buf, input)
    else (if c == 10 then (false, buf, input) else more)

unfoldable pub net_read_line : Bytes → Bool × Bytes × Bytes
net_read_line input = read_on input 0 []

module _ {W : Type 0} (write : Bytes → W → ℤ × W) where
  -- The loop of `net_write`: (whether it fails, the bytes that the socket took, its state).
  unfoldable pub write_on : ℕ → Bytes → Bytes → W → Option (Bool × Bytes × W)
  write_on fuel [] wire w = some (false, wire, w)
  write_on zero (c ∷ left) wire w = none
  write_on (suc fuel) (c ∷ left) wire w =
      let (count, w') = write (c ∷ left) w in
      elim count [
        | negsuc n ↦ some (true, wire, w')
        | pos n ↦ elim n [
          | zero ↦ some (true, wire, w')
          | suc m ↦ write_on fuel (drop m left) (wire ++ c ∷ take m left) w'
        ]
      ]

  unfoldable pub net_write : Bytes → Bytes → W → Option (Bool × Bytes × W)
  net_write buf wire w = write_on (length buf) buf wire w

  unfoldable pub net_write_str : Bytes → Bytes → W → Option (Bool × Bytes × W)
  net_write_str str wire w = net_write (str ++ 0 ∷ []) wire w
