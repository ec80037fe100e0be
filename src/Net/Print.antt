-- ===== src/Net/Print.antt =====
-- `IP.String`
use kloudstack.Base.{
  ℕ, zero, suc, ◌+◌, ◌-◌, ◌/◌, ◌%◌, ◌^◌, ◌&&◌, List, [], ◌∷◌, ◌++◌, leb, ltb, ◌==◌, if◌then◌else◌,
  take, drop, map,
}
use kloudstack.Base.Text.{Text, join}
use kloudstack.Base.Decimal.{format_nat}

-- Four bytes with dots.
unfoldable pub dotted : ℕ → Text
unfolding join format_nat
dotted v =
    join b'.' (
      map format_nat ((v / 2 ^ 24 % 256) ∷ (v / 2 ^ 16 % 256) ∷ (v / 2 ^ 8 % 256) ∷ (v % 256) ∷ []))

abbrev hex_char : ℕ → ℕ
hex_char d = if ltb d 10 then b'0' + d else b'a' + (d - 10)

hex_digits : ℕ → ℕ → Text
hex_digits zero n = []
hex_digits (suc fuel) n =
    let rest = hex_digits fuel (n / 16) in
    if ltb n 16 then hex_char n ∷ [] else rest ++ (hex_char (n % 16) ∷ [])

-- A group of sixteen bits, with no leading zero.
hex_group : ℕ → Text
unfolding hex_digits
hex_group n = hex_digits 4 n

groups : ℕ → ℕ → List ℕ → List ℕ
groups zero v acc = acc
groups (suc k) v acc = groups k (v / 2 ^ 16) ((v % 2 ^ 16) ∷ acc)

zero_run : List ℕ → ℕ
zero_run [] = 0
zero_run (g ∷ gs) = let rest = zero_run gs in if g == 0 then suc rest else 0

-- The start and the length of the first longest run of two zeros or more.
longest_run : ℕ → List ℕ → ℕ × ℕ → ℕ × ℕ
unfolding zero_run
longest_run i [] best = best
longest_run i (g ∷ gs) best =
    let l = zero_run (g ∷ gs) in
    longest_run (i + 1) gs (if leb 2 l && ltb best.1 l then (i, l) else best)

compressed : List ℕ → ℕ × ℕ → Text
unfolding hex_group
compressed gs (start, l) =
    if l == 0
    then join b':' (map hex_group gs)
    else join b':' (map hex_group (take start gs))
      ++ (b':' ∷ b':' ∷ join b':' (map hex_group (drop (start + l) gs)))

unfoldable pub ip_string : ℕ → Text
unfolding compressed groups longest_run dotted join
ip_string v =
    if v / 2 ^ 32 == 0xffff
    then dotted (v % 2 ^ 32)
    else let gs = groups 8 v [] in compressed gs (longest_run 0 gs (0, 0))
