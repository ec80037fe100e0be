-- ===== src/Net/Dotted.antt =====
-- Four bytes with dots (`IP.String` of an IPv4 address) are those of one address.
use kloudstack.Base.{ℕ, ◌/◌, ◌%◌, ◌^◌, ◌<◌, ◌≡◌, refl, sym, ap, ◌∙◌, List, [], ◌∷◌, arith}
use kloudstack.Base.Text.{Text, split, join}
use kloudstack.Base.Text.Laws.{split-append, split-Lacks, Lacks}
use kloudstack.Base.Decimal.{format_nat}
use kloudstack.Base.Decimal.Laws.{format_nat-injective, All-format_nat}
use kloudstack.Net.{dotted}

format_nat-Lacks : (n : ℕ) → Lacks b'.' (format_nat n)
format_nat-Lacks n = All-format_nat b'.' n refl

abbrev parts : ℕ → ℕ → ℕ → ℕ → List Text
parts a b c d = format_nat a ∷ format_nat b ∷ format_nat c ∷ format_nat d ∷ []

split-parts : (a b c d : ℕ) → split b'.' (join b'.' (parts a b c d)) ≡ parts a b c d
unfolding join
split-parts a b c d = rw (
  split-append b'.' (format_nat a) _ (format_nat-Lacks a),
  split-append b'.' (format_nat b) _ (format_nat-Lacks b),
  split-append b'.' (format_nat c) _ (format_nat-Lacks c),
  split-Lacks b'.' (format_nat d) (format_nat-Lacks d),
)

pub dotted-injective : (v w : ℕ) → v < 2 ^ 32 → w < 2 ^ 32 → dotted v ≡ dotted w → v ≡ w
unfolding dotted
dotted-injective v w lv lw e =
    let same =
      sym (split-parts (v / 2 ^ 24 % 256) (v / 2 ^ 16 % 256) (v / 2 ^ 8 % 256) (v % 256))
      ∙ ap (split b'.') e
      ∙ split-parts (w / 2 ^ 24 % 256) (w / 2 ^ 16 % 256) (w / 2 ^ 8 % 256) (w % 256) in
    let byte3 = format_nat-injective (v / 2 ^ 24 % 256) (w / 2 ^ 24 % 256) (ground arith) in
    let byte2 = format_nat-injective (v / 2 ^ 16 % 256) (w / 2 ^ 16 % 256) (ground arith) in
    let byte1 = format_nat-injective (v / 2 ^ 8 % 256) (w / 2 ^ 8 % 256) (ground arith) in
    let byte0 = format_nat-injective (v % 256) (w % 256) (ground arith) in omega arith
