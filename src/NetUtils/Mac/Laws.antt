-- ===== src/NetUtils/Mac/Laws.antt =====
-- What a generated MAC shows of its input.
use kloudstack.Base.{
  ℕ, ◌+◌, ◌*◌, ◌/◌, ◌%◌, ◌<◌, ◌≡◌, refl, ap, ◌↔◌, true, List, [], ◌∷◌, ◌++◌, arith, length,
  length-append, All,
}
use kloudstack.Base.Text.{Text, has_prefix}
use kloudstack.Base.Text.Laws.{has_prefix-append}
use kloudstack.NetUtils.Mac.{hex_char, mix, mac_parts, print_parts, generate_veth_mac}

mix_lt : (hash : Text) (i : ℕ) → mix hash i < 256
unfolding mix
mix_lt hash i = omega arith

mac_parts-IsBytes :
    (input : Text) → All (λ b. b < 256) (mac_parts input) × (length (mac_parts input) ≡ 5)
mac_parts-IsBytes input =
    unfold mac_parts in
    ((mix_lt _ 1, (mix_lt _ 2, (mix_lt _ 3, (mix_lt _ 4, (mix_lt _ 5, tt))))), refl)

length-print_parts : (bs : List ℕ) → length (print_parts bs) ≡ 3 * length bs
unfolding print_parts
length-print_parts [] = refl
length-print_parts (b ∷ bs) = omega (arith, length-print_parts bs)

hex_char-injective : (c d : ℕ) → hex_char c ≡ hex_char d → c < 16 → d < 16 → c ≡ d
hex_char-injective c d e p q = ground arith

print_parts-injective :
    (bs cs : List ℕ)
    → All (λ b. b < 256) bs
    → All (λ b. b < 256) cs
    → print_parts bs ≡ print_parts cs
    → bs ≡ cs
unfolding print_parts
print_parts-injective [] [] p q e = refl
print_parts-injective [] (c ∷ cs) p q e = absurd (cc)
print_parts-injective (b ∷ bs) [] p q e = absurd (cc)
print_parts-injective (b ∷ bs) (c ∷ cs) p q e =
    let hi : b / 16 ≡ c / 16 =
      hex_char-injective (b / 16) (c / 16) (cc) (omega arith) (omega arith) in
    let lo : b % 16 ≡ c % 16 =
      hex_char-injective (b % 16) (c % 16) (cc) (omega arith) (omega arith) in
    let same : b ≡ c = omega arith in cc (print_parts-injective bs cs p.1 q.1 (cc))

append-cancel : (p s t : Text) → p ++ s ≡ p ++ t → s ≡ t
append-cancel [] s t e = e
append-cancel (b ∷ p) s t e = append-cancel p s t (cc)

-- A generated MAC starts with the prefix and has fifteen more bytes; under one prefix two inputs
-- have the same MAC exactly if the five mixed bytes of their digests are the same.
pub generate_veth_mac-shape :
    (input input' prefix : Text)
    → (has_prefix (generate_veth_mac input prefix) prefix ≡ true)
      × (length (generate_veth_mac input prefix) ≡ length prefix + 15)
      × ((generate_veth_mac input prefix ≡ generate_veth_mac input' prefix)
          ↔ (mac_parts input ≡ mac_parts input'))
unfolding generate_veth_mac
generate_veth_mac-shape input input' prefix =
    let (b, l) = mac_parts-IsBytes input in
    let b' = (mac_parts-IsBytes input').0 in
    (
      has_prefix-append prefix _,
      omega (
        arith,
        length-append prefix (print_parts (mac_parts input)),
        length-print_parts (mac_parts input),
      ),
      (
        λ e. print_parts-injective _ _ b b' (append-cancel prefix _ _ e),
        λ e. ap (λ (t : List ℕ). prefix ++ print_parts t) e,
      ),
    )
