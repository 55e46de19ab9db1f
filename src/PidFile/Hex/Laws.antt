-- ===== src/PidFile/Hex/Laws.antt =====
-- The hexadecimal fields of the record in process/pid_file.rs.
use Prim.Native.Nat.{bit_and}
use mathlib.Core.Path.{subst}
use nyanpasu_utils.Prelude.{
  ℕ, zero, suc, ◌+◌, ◌-◌, ◌*◌, ◌/◌, ◌%◌, ◌^◌, ◌<◌, ◌≡◌, refl, ap, ◌∙◌, ◌++◌, append-nil, sym,
  ltb→lt, Bool, true, false, ◌&&◌, List, [], ◌∷◌, arith, Bytes, IsByte, All, ltb, ◌==◌, ==_iff,
  if◌then◌else◌,
}
use nyanpasu_utils.Io.{Io, ok, err, ◌>>=◌, passed, ok_inj}
use nyanpasu_utils.PidFile.Hex.{
  hex_char, hex_encode, hex_nibble, join_nibbles, as_chunks, decode_pairs, decode_chunks,
  hex_decode,
}

-- A test that is tried on every number below a bound.
tries : (ℕ → Bool) → ℕ → Bool
tries test zero = true
tries test (suc bound) = tries test bound && test bound

tries_lem : (test : ℕ → Bool) (bound x : ℕ) → x < bound → tries test bound ≡ true → test x ≡ true
unfolding tries
tries_lem test zero x below all = absurd (omega arith)
tries_lem test (suc bound) x below all = ground (arith, tries_lem test bound x)

abbrev ok_is : Io ℕ → ℕ → Bool
ok_is (ok a) b = a == b
ok_is (err _) b = false

ok_is_sound : (r : Io ℕ) (b : ℕ) → ok_is r b ≡ true → r ≡ ok b
ok_is_sound (ok a) b h = ground arith
ok_is_sound (err _) b h = cc

abbrev byte_test : ℕ → Bool
byte_test x =
    ok_is
      (do
        high ← hex_nibble (hex_char (x / 2 ^ 4))
        low ← hex_nibble (hex_char (bit_and x 0x0f))
        ok (join_nibbles high low))
      x

byte_table : tries byte_test 256 ≡ true
unfolding tries hex_nibble hex_char
byte_table = refl

decode-byte :
    (x : ℕ)
    → x < 256
    → (do
      high ← hex_nibble (hex_char (x / 2 ^ 4))
      low ← hex_nibble (hex_char (bit_and x 0x0f))
      ok (join_nibbles high low))
      ≡ ok x
decode-byte x h = ok_is_sound _ x (tries_lem byte_test 256 x h byte_table)

chunks_even : (c : List (ℕ × ℕ) × Bytes) → c.1 ≡ [] → decode_chunks c ≡ decode_pairs c.0
chunks_even (ps, []) h = refl
chunks_even (ps, x ∷ r) h = cc

decode-cons :
    (x : ℕ) (ps : List (ℕ × ℕ)) (bs : Bytes)
    → x < 256
    → decode_pairs ps ≡ ok bs
    → decode_pairs ((hex_char (x / 2 ^ 4), hex_char (bit_and x 0x0f)) ∷ ps) ≡ ok (x ∷ bs)
unfolding decode_pairs
decode-cons x ps bs h k = ground (arith, decode-byte x h)

chunks-encode :
    (bs : Bytes)
    → All IsByte bs
    → ((as_chunks (hex_encode bs)).1 ≡ []) × (decode_pairs (as_chunks (hex_encode bs)).0 ≡ ok bs)
unfolding as_chunks hex_encode
chunks-encode [] h = (refl, unfold decode_pairs in refl)
chunks-encode (b ∷ bs) h =
    let (even, ih) = chunks-encode bs h.1 in
    (even, decode-cons b (as_chunks (hex_encode bs)).0 bs h.0 ih)

-- Decoding what was encoded gives the bytes back.
pub hex_decode-encode : (bs : Bytes) → All IsByte bs → hex_decode (hex_encode bs) ≡ ok bs
unfolding hex_decode
hex_decode-encode bs h =
    let (even, e) = chunks-encode bs h in chunks_even (as_chunks (hex_encode bs)) even ∙ e

abbrev char_test : ℕ → Bool
char_test h = hex_char h == (if ltb h 10 then b'0' + h else b'a' + (h - 10))

char_table : tries char_test 16 ≡ true
unfolding tries hex_char
char_table = refl

char_lem : (h : ℕ) → h < 16 → hex_char h ≡ (if ltb h 10 then b'0' + h else b'a' + (h - 10))
char_lem h lt = (==_iff _ _).0 (tries_lem char_test 16 h lt char_table)

nibble_char : (c h : ℕ) → hex_nibble c ≡ ok h → (h < 16) × (hex_char h ≡ c)
unfolding hex_nibble
nibble_char c h e = let lt : h < 16 = ground arith in (lt, char_lem h lt ∙ ground arith)

abbrev join_test : ℕ → Bool
join_test x =
    ltb (join_nibbles (x / 16) (x % 16)) 256
    && (join_nibbles (x / 16) (x % 16) / 2 ^ 4 == x / 16
        && bit_and (join_nibbles (x / 16) (x % 16)) 0x0f == x % 16)

join_table : tries join_test 256 ≡ true
unfolding tries
join_table = refl

&&_parts : (a b c : Bool) → (a && (b && c)) ≡ true → (a ≡ true) × (b ≡ true) × (c ≡ true)
&&_parts a b c h = ground arith

join_lem :
    (h l x : ℕ)
    → x / 16 ≡ h
    → x % 16 ≡ l
    → x < 256
    → (join_nibbles h l < 256)
      × (join_nibbles h l / 2 ^ 4 ≡ h)
      × (bit_and (join_nibbles h l) 0x0f ≡ l)
join_lem h l x p q lt =
    let (a, b, c) = &&_parts _ _ _ (tries_lem join_test 256 x lt join_table) in
    rw (← p, ← q) (ltb→lt _ _ a, (==_iff _ _).0 b, (==_iff _ _).0 c)

flat : List (ℕ × ℕ) → Bytes
flat [] = []
flat ((a, b) ∷ ps) = a ∷ b ∷ flat ps

flat-as_chunks : (s : Bytes) → flat (as_chunks s).0 ++ (as_chunks s).1 ≡ s
unfolding flat as_chunks
flat-as_chunks [] = refl
flat-as_chunks (a ∷ []) = refl
flat-as_chunks (a ∷ b ∷ s) = ap (λ t. a ∷ b ∷ t) (flat-as_chunks s)

pair_step :
    (a b high low : ℕ) (rest s : Bytes)
    → (high < 16) × (hex_char high ≡ a)
    → (low < 16) × (hex_char low ≡ b)
    → All IsByte rest × (hex_encode rest ≡ s)
    → All IsByte (join_nibbles high low ∷ rest)
      × (hex_encode (join_nibbles high low ∷ rest) ≡ a ∷ b ∷ s)
unfolding hex_encode
pair_step a b high low rest s (ah, ac) (bh, bc) (ih, eq) =
    let (lt, hi, lo) =
      join_lem high low (high * 16 + low) (omega arith) (omega arith) (omega arith) in
    ((lt, ih), rw (hi, lo, ac, bc, eq))

pairs_inv :
    (ps : List (ℕ × ℕ)) (bs : Bytes)
    → decode_pairs ps ≡ ok bs
    → All IsByte bs × (hex_encode bs ≡ flat ps)
unfolding decode_pairs flat hex_encode
pairs_inv [] bs e = subst (λ t. All IsByte t × (hex_encode t ≡ [])) (ok_inj e) (tt, refl)
pairs_inv ((a, b) ∷ ps) bs e =
    let (high, p, e') = passed (hex_nibble a) _ e in
    let (low, q, e'') = passed (hex_nibble b) _ e' in
    let (rest, r, w) = passed (decode_pairs ps) _ e'' in
    subst (λ t. All IsByte t × (hex_encode t ≡ a ∷ b ∷ flat ps)) (ok_inj w)
      (pair_step a b high low rest (flat ps) (nibble_char a high p) (nibble_char b low q)
        (pairs_inv ps rest r))

chunks_inv :
    (c : List (ℕ × ℕ) × Bytes) (bs : Bytes)
    → decode_chunks c ≡ ok bs
    → (c.1 ≡ []) × (decode_pairs c.0 ≡ ok bs)
chunks_inv (ps, []) bs e = (refl, e)
chunks_inv (ps, x ∷ r) bs e = cc

-- Only what `hex_encode` writes is decoded: digits in lower case, two for each byte.
pub hex_encode-decode : (s bs : Bytes) → hex_decode s ≡ ok bs → All IsByte bs × (hex_encode bs ≡ s)
unfolding hex_decode
hex_encode-decode s bs e =
    let (none_left, e') = chunks_inv (as_chunks s) bs e in
    let (bytes, eq) = pairs_inv (as_chunks s).0 bs e' in
    (
      bytes,
      eq
          ∙ sym (append-nil _)
          ∙ ap (λ t. flat (as_chunks s).0 ++ t) (sym none_left)
          ∙ flat-as_chunks s,
    )

-- A digit of `hex_encode` is no character below `0`.
hex_char_plain : (sep n : ℕ) → sep < b'0' → n < 16 → (hex_char n == sep) ≡ false
hex_char_plain sep n h lt = rw (char_lem n lt) (ground arith)

nibble_test_table : tries (λ x. ltb (bit_and x 0x0f) 16) 256 ≡ true
unfolding tries
nibble_test_table = refl

low_nibble-lt : (x : ℕ) → x < 256 → bit_and x 0x0f < 16
low_nibble-lt x h = ltb→lt _ _ (tries_lem (λ x. ltb (bit_and x 0x0f) 16) 256 x h nibble_test_table)

-- `hex_encode` writes no character below `0`.
pub hex_encode_plain :
    (sep : ℕ) (bs : Bytes)
    → sep < b'0'
    → All IsByte bs
    → All (λ c. (c == sep) ≡ false) (hex_encode bs)
unfolding hex_encode
hex_encode_plain sep [] h k = tt
hex_encode_plain sep (b ∷ bs) h k = (
  hex_char_plain sep (b / 2 ^ 4) h (omega (arith, k.0)),
  (hex_char_plain sep (bit_and b 0x0f) h (low_nibble-lt b k.0), hex_encode_plain sep bs h k.1),
)

hex_char-lt : (n : ℕ) → n < 16 → hex_char n < 128
hex_char-lt n h = rw (char_lem n h) (ground arith)

-- The digits of `hex_encode` are ASCII.
pub hex_encode_ascii : (bs : Bytes) → All IsByte bs → All (λ c. c < 128) (hex_encode bs)
unfolding hex_encode
hex_encode_ascii [] h = tt
hex_encode_ascii (b ∷ bs) h = (
  hex_char-lt (b / 2 ^ 4) (omega (arith, h.0)),
  (hex_char-lt (bit_and b 0x0f) (low_nibble-lt b h.0), hex_encode_ascii bs h.1),
)
