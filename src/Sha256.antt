-- ===== src/Sha256.antt =====
-- `sha256.Sum256` of Go's package crypto/sha256.
mod Tests
use Prim.Native.Nat.{bit_and, bit_xor}
use kloudstack.Base.{
  ℕ, zero, suc, ◌+◌, ◌-◌, ◌*◌, ◌/◌, ◌%◌, ◌^◌, List, [], ◌∷◌, ◌++◌, length, take, drop,
}
use kloudstack.Base.Text.{Text}

abbrev word : ℕ → ℕ
word x = x % 2 ^ 32

abbrev rotr : ℕ → ℕ → ℕ
rotr k x = x / 2 ^ k + x % 2 ^ k * 2 ^ (32 - k)

abbrev xor3 : ℕ → ℕ → ℕ → ℕ
xor3 x y z = bit_xor (bit_xor x y) z

abbrev round_constants : List ℕ
round_constants =
    0x428a2f98 ∷ 0x71374491 ∷ 0xb5c0fbcf ∷ 0xe9b5dba5 ∷ 0x3956c25b ∷ 0x59f111f1 ∷ 0x923f82a4
    ∷ 0xab1c5ed5 ∷ 0xd807aa98 ∷ 0x12835b01 ∷ 0x243185be ∷ 0x550c7dc3 ∷ 0x72be5d74 ∷ 0x80deb1fe
    ∷ 0x9bdc06a7 ∷ 0xc19bf174 ∷ 0xe49b69c1 ∷ 0xefbe4786 ∷ 0x0fc19dc6 ∷ 0x240ca1cc ∷ 0x2de92c6f
    ∷ 0x4a7484aa ∷ 0x5cb0a9dc ∷ 0x76f988da ∷ 0x983e5152 ∷ 0xa831c66d ∷ 0xb00327c8 ∷ 0xbf597fc7
    ∷ 0xc6e00bf3 ∷ 0xd5a79147 ∷ 0x06ca6351 ∷ 0x14292967 ∷ 0x27b70a85 ∷ 0x2e1b2138 ∷ 0x4d2c6dfc
    ∷ 0x53380d13 ∷ 0x650a7354 ∷ 0x766a0abb ∷ 0x81c2c92e ∷ 0x92722c85 ∷ 0xa2bfe8a1 ∷ 0xa81a664b
    ∷ 0xc24b8b70 ∷ 0xc76c51a3 ∷ 0xd192e819 ∷ 0xd6990624 ∷ 0xf40e3585 ∷ 0x106aa070 ∷ 0x19a4c116
    ∷ 0x1e376c08 ∷ 0x2748774c ∷ 0x34b0bcb5 ∷ 0x391c0cb3 ∷ 0x4ed8aa4a ∷ 0x5b9cca4f ∷ 0x682e6ff3
    ∷ 0x748f82ee ∷ 0x78a5636f ∷ 0x84c87814 ∷ 0x8cc70208 ∷ 0x90befffa ∷ 0xa4506ceb ∷ 0xbef9a3f7
    ∷ 0xc67178f2 ∷ []

-- The eight working variables.
record State : Type 0 where
  a : ℕ
  b : ℕ
  c : ℕ
  d : ℕ
  e : ℕ
  f : ℕ
  g : ℕ
  h : ℕ

abbrev initial : State
initial = record {
  a = 0x6a09e667;
  b = 0xbb67ae85;
  c = 0x3c6ef372;
  d = 0xa54ff53a;
  e = 0x510e527f;
  f = 0x9b05688c;
  g = 0x1f83d9ab;
  h = 0x5be0cd19;
}

nth : ℕ → List ℕ → ℕ
nth i [] = 0
nth zero (x ∷ xs) = x
nth (suc i) (x ∷ xs) = nth i xs

-- The rest of the schedule from its last sixteen words.
schedule : ℕ → List ℕ → List ℕ
unfolding nth
schedule zero w = w
schedule (suc k) w =
    let x = nth 1 w in
    let y = nth 14 w in
    let s0 = xor3 (rotr 7 x) (rotr 18 x) (x / 2 ^ 3) in
    let s1 = xor3 (rotr 17 y) (rotr 19 y) (y / 2 ^ 10) in
    let next = word (nth 0 w + s0 + nth 9 w + s1) in nth 0 w ∷ schedule k (drop 1 w ++ (next ∷ []))

round : ℕ → ℕ → State → State
round k w s =
    let s1 = xor3 (rotr 6 s.e) (rotr 11 s.e) (rotr 25 s.e) in
    let ch = bit_xor (bit_and s.e s.f) (bit_and (2 ^ 32 - 1 - s.e) s.g) in
    let t1 = s.h + s1 + ch + k + w in
    let s0 = xor3 (rotr 2 s.a) (rotr 13 s.a) (rotr 22 s.a) in
    let maj = xor3 (bit_and s.a s.b) (bit_and s.a s.c) (bit_and s.b s.c) in
    record {
      a = word (t1 + s0 + maj);
      b = s.a;
      c = s.b;
      d = s.c;
      e = word (s.d + t1);
      f = s.e;
      g = s.f;
      h = s.g;
    }

rounds : List ℕ → List ℕ → State → State
unfolding round
rounds [] w s = s
rounds (k ∷ ks) [] s = s
rounds (k ∷ ks) (x ∷ w) s = rounds ks w (round k x s)

block : List ℕ → State → State
unfolding schedule rounds
block w s =
    let t = rounds round_constants (schedule 48 w) s in
    record {
      a = word (s.a + t.a);
      b = word (s.b + t.b);
      c = word (s.c + t.c);
      d = word (s.d + t.d);
      e = word (s.e + t.e);
      f = word (s.f + t.f);
      g = word (s.g + t.g);
      h = word (s.h + t.h);
    }

words : Text → List ℕ
words (p ∷ q ∷ r ∷ s ∷ t) = (p * 2 ^ 24 + q * 2 ^ 16 + r * 2 ^ 8 + s) ∷ words t
words _ = []

-- The big-endian bytes of a number, `n` of them.
bytes_of : ℕ → ℕ → Text → Text
bytes_of zero x acc = acc
bytes_of (suc n) x acc = bytes_of n (x / 256) ((x % 256) ∷ acc)

zero_bytes : ℕ → Text
zero_bytes zero = []
zero_bytes (suc n) = 0 ∷ zero_bytes n

-- A one bit, zeros up to 56 modulo 64 bytes, and the length in bits.
padded : Text → Text
unfolding bytes_of zero_bytes
padded t =
    t ++ (0x80 ∷ zero_bytes ((119 - length t % 64) % 64) ++ bytes_of 8 (length t * 8 % 2 ^ 64) [])

blocks : ℕ → List ℕ → State → State
unfolding block
blocks zero w s = s
blocks (suc n) w s = blocks n (drop 16 w) (block (take 16 w) s)

unfoldable pub sum256 : Text → Text
unfolding blocks padded words bytes_of
sum256 t =
    let p = padded t in
    let s = blocks (length p / 64) (words p) initial in
    bytes_of 4 s.a (
      bytes_of 4 s.b (
        bytes_of 4 s.c
          (bytes_of 4 s.d (bytes_of 4 s.e (bytes_of 4 s.f (bytes_of 4 s.g (bytes_of 4 s.h [])))))))
