-- ===== src/Query/Decode.antt =====
-- `decode_query` of src/main.c undoes URL encoding in place.
use Prim.Native.Nat.{bit_or}
use gusher.Base.{
  ℕ, zero, suc, ◌+◌, ◌*◌, ◌/◌, ◌%◌, ◌<◌, ◌≤◌, ◌≡◌, ◌≢◌, ◌⊎◌, refl, sym, ap, ◌∙◌, Bool, true, ◌&&◌,
  Bytes, [], ◌∷◌, ◌++◌, append_assoc, ◌==◌, Run, ok, length, length-append, is_xdigit, arith,
}
use gusher.Buffer.Border.{load_at, store_at}
use gusher.Buffer.{load, store}
use gusher.Query.{hex_value, decode_hex, decode_loop, decode_query}

-- `a` is the hexadecimal digit of `d`, in either case.
abbrev pub HexDigit : ℕ → ℕ → Type 0
HexDigit d a = ((d < 10) × (a ≡ 48 + d)) ⊎ ((10 ≤ d) × (d < 16) × ((a ≡ 55 + d) ⊎ (a ≡ 87 + d)))

-- `e` is a URL encoding of `v`: a byte stands for itself, a space may be `+`, and any byte may be
-- `%` with its two hexadecimal digits.
pub data Encodes : Bytes → Bytes → Type 0 where
  done : Encodes [] []
  plain :
      {c : ℕ} {v e : Bytes} → c ≢ 0 → c ≢ b'+' → c ≢ b'%' → Encodes v e → Encodes (c ∷ v) (c ∷ e)
  space : {v e : Bytes} {c p : ℕ} → c ≡ 32 → p ≡ b'+' → Encodes v e → Encodes (c ∷ v) (p ∷ e)
  percent :
      {v e : Bytes} {c p a b : ℕ} (h l : ℕ)
      → c ≡ h * 16 + l
      → p ≡ b'%'
      → HexDigit h a
      → HexDigit l b
      → Encodes v e
      → Encodes (c ∷ v) (p ∷ a ∷ b ∷ e)

-- Whether joining the halves of each byte below `n` gives the byte.
joins_to : ℕ → Bool
joins_to zero = true
joins_to (suc byte) = bit_or (byte / 16 * 16 % 256) (byte % 16) == byte && joins_to byte

join_halves :
    (n byte : ℕ) → joins_to n ≡ true → byte < n → bit_or (byte / 16 * 16 % 256) (byte % 16) ≡ byte
unfolding joins_to
join_halves zero byte all h = absurd (omega arith)
join_halves (suc n) byte all h = ground (arith, join_halves n byte)

all_join : joins_to 256 ≡ true
unfolding joins_to
all_join = refl

or_nibbles : (h l : ℕ) → h < 16 → l < 16 → bit_or (h * 16 % 256) l ≡ h * 16 + l
or_nibbles h l p q =
    let x : ℕ = h * 16 + l in
    let eh : x / 16 * 16 % 256 ≡ h * 16 % 256 = omega arith in
    let el : x % 16 ≡ l = omega arith in
    let t : bit_or (x / 16 * 16 % 256) (x % 16) ≡ x = join_halves 256 x all_join (omega arith) in
    rw (eh, el) at t

hex_value_lem : (d a : ℕ) → HexDigit d a → hex_value a ≡ d
unfolding hex_value
hex_value_lem d a h = ground arith

HexDigit-lt : (d a : ℕ) → HexDigit d a → d < 16
HexDigit-lt d a h = ground arith

HexDigit-is_xdigit : (d a : ℕ) → HexDigit d a → is_xdigit a ≡ true
unfolding is_xdigit
HexDigit-is_xdigit d a h = ground arith

-- Two hexadecimal digits give the byte that they stand for.
pub decode_hex_lem : (h l a b : ℕ) → HexDigit h a → HexDigit l b → decode_hex a b ≡ h * 16 + l
unfolding decode_hex
decode_hex_lem h l a b p q =
    rw (hex_value_lem h a p, hex_value_lem l b q)
      (or_nibbles h l (HexDigit-lt h a p) (HexDigit-lt l b q))

-- The buffer after decoding: the text `v` with its NUL, bytes that nothing reads, and what stood
-- behind the text.
pub record Decoded (pre v rest : Bytes) (room : ℕ) (out : Run Bytes) : Type 0 where
  pub junk : Bytes
  pub result : out ≡ ok (pre ++ (v ++ 0 ∷ (junk ++ rest)))
  pub size : length v + length junk ≡ room

module _ (fuel : ℕ) (mem : Bytes) (get put : ℕ) where
  decode_loop-end : load mem get ≡ ok 0 → decode_loop (suc fuel) mem get put ≡ store mem put 0
  unfolding decode_loop
  decode_loop-end h = rw h

  decode_loop-plain :
      (c : ℕ) (mem' : Bytes)
      → c ≢ 0
      → c ≢ b'+'
      → c ≢ b'%'
      → load mem get ≡ ok c
      → store mem put c ≡ ok mem'
      → decode_loop (suc fuel) mem get put ≡ decode_loop fuel mem' (get + 1) (put + 1)
  unfolding decode_loop
  decode_loop-plain c mem' n0 n1 n2 h s = rw h (ground arith)

  decode_loop-space :
      (c : ℕ) (mem' : Bytes)
      → c ≡ b'+'
      → load mem get ≡ ok c
      → store mem put 32 ≡ ok mem'
      → decode_loop (suc fuel) mem get put ≡ decode_loop fuel mem' (get + 1) (put + 1)
  unfolding decode_loop
  decode_loop-space c mem' e h s = rw (h, e) (rw s)

  decode_loop-percent :
      (a b c : ℕ) (mem' : Bytes)
      → is_xdigit a ≡ true
      → c ≡ b'%'
      → load mem get ≡ ok c
      → load mem (get + 1) ≡ ok a
      → load mem (get + 2) ≡ ok b
      → store mem put (decode_hex a b) ≡ ok mem'
      → decode_loop (suc fuel) mem get put ≡ decode_loop fuel mem' (get + 3) (put + 1)
  unfolding decode_loop
  decode_loop-percent a b c mem' x e h ha hb s = rw (h, e) (rw (ha, x) (rw (hb, s)))

-- The store that a round makes: at `put`, into a gap that the bytes read have left.
store_gap :
    (pre g ks tail : Bytes) (x put v : ℕ) (mem : Bytes)
    → mem ≡ pre ++ (g ++ (x ∷ ks ++ tail))
    → put ≡ length pre
    → (g' : Bytes) × (store mem put v ≡ ok ((pre ++ v ∷ []) ++ (g' ++ tail)))
      × (length g' ≡ length g + length ks)
store_gap pre [] ks tail x put v mem m e = (
  ks,
  store_at mem pre x (ks ++ tail) put v m e ∙ ap ok (sym (append_assoc pre (v ∷ []) _)),
  omega arith,
)
store_gap pre (y ∷ g) ks tail x put v mem m e = (
  g ++ x ∷ ks,
  store_at mem pre y (g ++ (x ∷ ks ++ tail)) put v m e ∙ rw (append_assoc, append_assoc),
  omega (arith, length-append g (x ∷ ks)),
)

-- The load at `get`, and the two behind it.
load_behind :
    (pre mid : Bytes) (x : ℕ) (t mem : Bytes) (i : ℕ)
    → mem ≡ pre ++ (mid ++ x ∷ t)
    → i ≡ length pre + length mid
    → load mem i ≡ ok x
load_behind pre mid x t mem i m e =
    load_at mem (pre ++ mid) x t i (m ∙ sym (append_assoc pre mid _))
      (omega (arith, length-append pre mid))

-- One more byte decoded: what is decoded behind it stands behind one more byte of prefix.
Decoded-cons :
    (pre v rest : Bytes) (c room : ℕ) {r r' : Run Bytes}
    → r ≡ r'
    → Decoded (pre ++ c ∷ []) v rest room r'
    → Decoded pre (c ∷ v) rest (suc room) r
Decoded-cons pre v rest c room e d = record {
  junk = d.junk;
  result = e ∙ d.result ∙ ap ok (append_assoc pre (c ∷ []) _);
  size = omega (arith, d.size);
}

Decoded-room :
    (pre v rest : Bytes) {a b : ℕ} {r : Run Bytes}
    → a ≡ b
    → Decoded pre v rest a r
    → Decoded pre v rest b r
Decoded-room pre v rest e d = record { junk = d.junk; result = d.result; size = d.size ∙ e }

decode_loop-Encodes :
    (fuel : ℕ) {v e : Bytes} (pre g rest mem : Bytes) (get put : ℕ)
    → Encodes v e
    → mem ≡ pre ++ (g ++ (e ++ 0 ∷ rest))
    → put ≡ length pre
    → get ≡ length pre + length g
    → length e < fuel
    → Decoded pre v rest (length g + length e) (decode_loop fuel mem get put)
decode_loop-Encodes zero pre g rest mem get put enc m p q f = absurd (omega arith)
decode_loop-Encodes (suc fuel) pre g rest mem get put done m p q f =
    let (g', s, l) = store_gap pre g [] rest 0 put 0 mem m p in
    record {
      junk = g';
      result =
          decode_loop-end fuel mem get put (load_behind pre g 0 rest mem get m q)
          ∙ s
          ∙ ap ok (append_assoc pre (0 ∷ []) _);
      size = omega (arith, l);
    }
decode_loop-Encodes (suc fuel) pre g rest mem get put (plain {c} {v} {e} n0 n1 n2 enc) m p q f =
    let t = e ++ 0 ∷ rest in
    let (g', s, l) = store_gap pre g [] t c put c mem m p in
    let pre' = pre ++ c ∷ [] in
    let grown = length-append pre (c ∷ []) in
    Decoded-room pre (c ∷ v) rest (omega (arith, l)) (
      Decoded-cons pre v rest c (length g' + length e)
        (decode_loop-plain fuel mem get put c (pre' ++ (g' ++ t)) n0 n1 n2
          (load_behind pre g c t mem get m q) s)
        (decode_loop-Encodes fuel pre' g' rest (pre' ++ (g' ++ t)) (get + 1) (put + 1) enc refl
          (omega (arith, grown)) (omega (arith, grown, l)) (omega arith)))
decode_loop-Encodes (suc fuel) pre g rest mem get put (space {v} {e} {c} {p = w} i j enc) m p q f =
    let t = e ++ 0 ∷ rest in
    let (g', s, l) = store_gap pre g [] t w put c mem m p in
    let pre' = pre ++ c ∷ [] in
    let grown = length-append pre (c ∷ []) in
    Decoded-room pre (c ∷ v) rest (omega (arith, l)) (
      Decoded-cons pre v rest c (length g' + length e)
        (decode_loop-space fuel mem get put w (pre' ++ (g' ++ t)) j
          (load_behind pre g w t mem get m q) (ap (store mem put) (sym i) ∙ s))
        (decode_loop-Encodes fuel pre' g' rest (pre' ++ (g' ++ t)) (get + 1) (put + 1) enc refl
          (omega (arith, grown)) (omega (arith, grown, l)) (omega arith)))
decode_loop-Encodes (suc fuel) pre g rest mem get put
      (percent {v} {e} {c} {p = w} {a} {b} h l i j x y enc) m p q f =
    let t = e ++ 0 ∷ rest in
    let (g', s, n) = store_gap pre g (a ∷ b ∷ []) t w put c mem m p in
    let pre' = pre ++ c ∷ [] in
    let grown = length-append pre (c ∷ []) in
    let g1 = length-append g (w ∷ []) in
    let g2 = length-append g (w ∷ a ∷ []) in
    Decoded-room pre (c ∷ v) rest (omega (arith, n)) (
      Decoded-cons pre v rest c (length g' + length e)
        (decode_loop-percent fuel mem get put a b w (pre' ++ (g' ++ t)) (HexDigit-is_xdigit h a x) j
          (load_behind pre g w (a ∷ b ∷ t) mem get m q)
          (load_behind pre (g ++ w ∷ []) a (b ∷ t) mem (get + 1) (m ∙ rw append_assoc)
            (omega (arith, g1)))
          (load_behind pre (g ++ w ∷ a ∷ []) b t mem (get + 2) (m ∙ rw append_assoc)
            (omega (arith, g2)))
          (ap (store mem put) (decode_hex_lem h l a b x y ∙ sym i) ∙ s))
        (decode_loop-Encodes fuel pre' g' rest (pre' ++ (g' ++ t)) (get + 3) (put + 1) enc refl
          (omega (arith, grown)) (omega (arith, grown, n)) (omega arith)))

-- On a buffer that holds, behind any bytes, a URL encoding of `v` and its NUL, decode_query leaves
-- `v` and a NUL in its place, and changes nothing before the text or behind its NUL.
pub decode_query-Encodes :
    {v e : Bytes} (pre rest : Bytes)
    → Encodes v e
    → Decoded pre v rest (length e) (decode_query (pre ++ (e ++ 0 ∷ rest)) (length pre))
unfolding decode_query
decode_query-Encodes {e} pre rest enc =
    let size = length-append pre (e ++ 0 ∷ rest) in
    let inner = length-append e (0 ∷ rest) in
    let mem = pre ++ (e ++ 0 ∷ rest) in
    Decoded-room pre _ rest (omega arith) (
      decode_loop-Encodes (length mem) pre [] rest mem (length pre) (length pre) enc refl refl
        (omega arith) (omega (arith, size, inner)))
