-- ===== src/Sha256/Tests.antt =====
-- A known digest.
use kloudstack.Base.{◌≡◌, refl, ◌∷◌, [], take}
use kloudstack.Base.Text.{lit}
use kloudstack.Sha256.{sum256}

sum256_abc :
    take 8 (sum256 (lit "abc")) ≡ 0xba ∷ 0x78 ∷ 0x16 ∷ 0xbf ∷ 0x8f ∷ 0x01 ∷ 0xcf ∷ 0xea ∷ []
unfolding sum256
sum256_abc = refl
