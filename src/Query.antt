-- ===== src/Query.antt =====
-- Query strings, src/main.c: `decode_hex`, `decode_query` and `parse_query`, over the buffer that
-- they change in place.
pub mod Decode
pub mod Parse
use Prim.Native.Nat.{bit_or}
use gusher.Base.{
  ℕ, zero, suc, ◌+◌, ◌-◌, ◌*◌, ◌%◌, ◌&&◌, Bytes, List, [], ◌∷◌, ◌==◌, if◌then◌else◌, Option, none,
  some, Run, ok, fault, out_of_fuel, ◌>>=◌, length, is_alpha, is_xdigit, to_upper,
}
use gusher.Buffer.{load, store, index, text_at}

-- `toupper(c) - 'A' + 10` or `c - '0'`, in the low eight bits.
unfoldable pub hex_value : ℕ → ℕ
unfolding is_alpha to_upper
hex_value c = if is_alpha c then (to_upper c + 256 - b'A' + 10) % 256 else (c + 256 - b'0') % 256

-- `decode_hex` on the two bytes that it reads; the result is cut to a `char`.
unfoldable pub decode_hex : ℕ → ℕ → ℕ
unfolding hex_value
decode_hex c0 c1 = bit_or (hex_value c0 * 16 % 256) (hex_value c1)

-- The loop of `decode_query`, with its two pointers; it returns the changed buffer.
decode_loop : ℕ → Bytes → ℕ → ℕ → Run Bytes
decode_loop zero mem get put = out_of_fuel
decode_loop (suc fuel) mem get put = do
  c ← load mem get
  if c == 0
      then store mem put 0
      else if c == b'+'
      then (do mem ← store mem put 32; decode_loop fuel mem (get + 1) (put + 1))
      else if c == b'%'
      then (do
        c0 ← load mem (get + 1)
        if is_xdigit c0
            then (do
              c1 ← load mem (get + 2)
              mem ← store mem put (decode_hex c0 c1)
              decode_loop fuel mem (get + 3) (put + 1))
            else (do mem ← store mem put c; decode_loop fuel mem (get + 1) (put + 1)))
      else (do mem ← store mem put c; decode_loop fuel mem (get + 1) (put + 1))

-- `decode_query(query)`: each round moves `get` on, so the length of the buffer is enough fuel.
unfoldable pub decode_query : Bytes → ℕ → Run Bytes
unfolding decode_loop
decode_query mem query = decode_loop (length mem) mem query query

-- `*next++ = '\0'` where there is a separator.
unfoldable pub cut : Bytes → Option ℕ → Run Bytes
cut mem none = ok mem
cut mem (some p) = store mem p 0

-- A round's pair, where there is `=`: the key at `mark` and the decoded value, in front of `list`.
add_pair : Bytes → ℕ → Option ℕ → List (Bytes × Bytes) → Run (Bytes × List (Bytes × Bytes))
unfolding decode_query
add_pair mem mark none list = ok (mem, list)
add_pair mem mark (some eq) list = do
  mem ← store mem eq 0
  key ← text_at mem mark
  mem ← decode_query mem (eq + 1)
  value ← text_at mem (eq + 1)
  ok (mem, (key, value) ∷ list)

-- `if ((eq = index(mark, '=')) != NULL) …`
take_pair : Bytes → ℕ → List (Bytes × Bytes) → Run (Bytes × List (Bytes × Bytes))
unfolding add_pair
take_pair mem mark list = do eq ← index mem mark b'='; add_pair mem mark eq list

-- The loop of `parse_query`; the list of pairs is an association list, the last pair first.
parse_loop : ℕ → Bytes → ℕ → List (Bytes × Bytes) → Run (List (Bytes × Bytes))
parse_loop zero mem mark list = out_of_fuel
parse_loop (suc fuel) mem mark list = do
  next ← index mem mark b'&'
  mem ← cut mem next
  (mem, list) ← take_pair mem mark list
  elim next [ none ↦ ok list | some p ↦ parse_loop fuel mem (p + 1) list ]

unfoldable pub parse_query : Bytes → ℕ → Run (List (Bytes × Bytes))
unfolding parse_loop take_pair
parse_query mem query = parse_loop (length mem) mem query []
