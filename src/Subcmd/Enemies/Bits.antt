-- ===== src/Subcmd/Enemies/Bits.antt =====
-- The bits of `clients_hit`: one for each of four clients, and 0x80 for a dead enemy.
use ship_server.Base.{
  ℕ, zero, suc, ◌≡◌, ◌≢◌, ◌<◌, refl, true, false, arith, has_flag, set_flag, clear_flag,
}
use ship_server.Subcmd.Enemies.{bit_of}

-- What holds of 0, 1, 2 and 3 holds below 4.
below_4 : (P : ℕ → Type 0) → P 0 → P 1 → P 2 → P 3 → (id : ℕ) → id < 4 → P id
below_4 P p0 p1 p2 p3 zero lt = p0
below_4 P p0 p1 p2 p3 (suc zero) lt = p1
below_4 P p0 p1 p2 p3 (suc (suc zero)) lt = p2
below_4 P p0 p1 p2 p3 (suc (suc (suc zero))) lt = p3
below_4 P p0 p1 p2 p3 (suc (suc (suc (suc n)))) lt = absurd (omega arith)

-- The word that a claim of a client leaves.
abbrev pub dead_word : ℕ → ℕ → ℕ
dead_word w id = set_flag (clear_flag w (bit_of id)) 0x80

pub dead_word-dead : (w id : ℕ) → id < 4 → has_flag (dead_word w id) 0x80 ≡ true
dead_word-dead w =
    below_4 (λ id. has_flag (dead_word w id) 0x80 ≡ true) (ground arith) (ground arith)
      (ground arith) (ground arith)

pub dead_word-claimed : (w id : ℕ) → id < 4 → has_flag (dead_word w id) (bit_of id) ≡ false
dead_word-claimed w =
    below_4 (λ id. has_flag (dead_word w id) (bit_of id) ≡ false) (ground arith) (ground arith)
      (ground arith) (ground arith)

-- A claim of any client leaves a bit that is clear clear.
abbrev KeepsClear : ℕ → ℕ → ℕ → Type 0
KeepsClear w c id = has_flag w (bit_of id) ≡ false → has_flag (dead_word w c) (bit_of id) ≡ false

dead_word_0-KeepsClear : (w id : ℕ) → id < 4 → KeepsClear w 0 id
dead_word_0-KeepsClear w =
    below_4 (KeepsClear w 0) (λ h. ground arith) (λ h. ground arith) (λ h. ground arith)
      (λ h. ground arith)

dead_word_1-KeepsClear : (w id : ℕ) → id < 4 → KeepsClear w 1 id
dead_word_1-KeepsClear w =
    below_4 (KeepsClear w 1) (λ h. ground arith) (λ h. ground arith) (λ h. ground arith)
      (λ h. ground arith)

dead_word_2-KeepsClear : (w id : ℕ) → id < 4 → KeepsClear w 2 id
dead_word_2-KeepsClear w =
    below_4 (KeepsClear w 2) (λ h. ground arith) (λ h. ground arith) (λ h. ground arith)
      (λ h. ground arith)

dead_word_3-KeepsClear : (w id : ℕ) → id < 4 → KeepsClear w 3 id
dead_word_3-KeepsClear w =
    below_4 (KeepsClear w 3) (λ h. ground arith) (λ h. ground arith) (λ h. ground arith)
      (λ h. ground arith)

pub dead_word-KeepsClear : (w c id : ℕ) → c < 4 → id < 4 → KeepsClear w c id
dead_word-KeepsClear w c id lt lt' =
    below_4 (λ c. KeepsClear w c id) (dead_word_0-KeepsClear w id lt')
      (dead_word_1-KeepsClear w id lt') (dead_word_2-KeepsClear w id lt')
      (dead_word_3-KeepsClear w id lt') c lt

-- A hit of any client leaves a bit that is set set.
abbrev HitKeeps : ℕ → ℕ → ℕ → Type 0
HitKeeps w c id =
    has_flag w (bit_of id) ≡ true → has_flag (set_flag w (bit_of c)) (bit_of id) ≡ true

set_flag_0-HitKeeps : (w id : ℕ) → id < 4 → HitKeeps w 0 id
set_flag_0-HitKeeps w =
    below_4 (HitKeeps w 0) (λ h. ground arith) (λ h. ground arith) (λ h. ground arith)
      (λ h. ground arith)

set_flag_1-HitKeeps : (w id : ℕ) → id < 4 → HitKeeps w 1 id
set_flag_1-HitKeeps w =
    below_4 (HitKeeps w 1) (λ h. ground arith) (λ h. ground arith) (λ h. ground arith)
      (λ h. ground arith)

set_flag_2-HitKeeps : (w id : ℕ) → id < 4 → HitKeeps w 2 id
set_flag_2-HitKeeps w =
    below_4 (HitKeeps w 2) (λ h. ground arith) (λ h. ground arith) (λ h. ground arith)
      (λ h. ground arith)

set_flag_3-HitKeeps : (w id : ℕ) → id < 4 → HitKeeps w 3 id
set_flag_3-HitKeeps w =
    below_4 (HitKeeps w 3) (λ h. ground arith) (λ h. ground arith) (λ h. ground arith)
      (λ h. ground arith)

pub set_flag-HitKeeps : (w c id : ℕ) → c < 4 → id < 4 → HitKeeps w c id
set_flag-HitKeeps w c id lt lt' =
    below_4 (λ c. HitKeeps w c id) (set_flag_0-HitKeeps w id lt') (set_flag_1-HitKeeps w id lt')
      (set_flag_2-HitKeeps w id lt') (set_flag_3-HitKeeps w id lt') c lt

pub hit_sets : (w id : ℕ) → id < 4 → has_flag (set_flag w (bit_of id)) (bit_of id) ≡ true
hit_sets w =
    below_4 (λ id. has_flag (set_flag w (bit_of id)) (bit_of id) ≡ true) (ground arith)
      (ground arith) (ground arith) (ground arith)

-- A claim of another client leaves a bit that is set set.
abbrev ClaimKeeps : ℕ → ℕ → ℕ → Type 0
ClaimKeeps w c id =
    c ≢ id → has_flag w (bit_of id) ≡ true → has_flag (dead_word w c) (bit_of id) ≡ true

dead_word_0-ClaimKeeps : (w id : ℕ) → id < 4 → ClaimKeeps w 0 id
dead_word_0-ClaimKeeps w =
    below_4 (ClaimKeeps w 0) (λ n h. absurd (n refl)) (λ n h. ground arith) (λ n h. ground arith)
      (λ n h. ground arith)

dead_word_1-ClaimKeeps : (w id : ℕ) → id < 4 → ClaimKeeps w 1 id
dead_word_1-ClaimKeeps w =
    below_4 (ClaimKeeps w 1) (λ n h. ground arith) (λ n h. absurd (n refl)) (λ n h. ground arith)
      (λ n h. ground arith)

dead_word_2-ClaimKeeps : (w id : ℕ) → id < 4 → ClaimKeeps w 2 id
dead_word_2-ClaimKeeps w =
    below_4 (ClaimKeeps w 2) (λ n h. ground arith) (λ n h. ground arith) (λ n h. absurd (n refl))
      (λ n h. ground arith)

dead_word_3-ClaimKeeps : (w id : ℕ) → id < 4 → ClaimKeeps w 3 id
dead_word_3-ClaimKeeps w =
    below_4 (ClaimKeeps w 3) (λ n h. ground arith) (λ n h. ground arith) (λ n h. ground arith)
      (λ n h. absurd (n refl))

pub dead_word-ClaimKeeps : (w c id : ℕ) → c < 4 → id < 4 → ClaimKeeps w c id
dead_word-ClaimKeeps w c id lt lt' =
    below_4 (λ c. ClaimKeeps w c id) (dead_word_0-ClaimKeeps w id lt')
      (dead_word_1-ClaimKeeps w id lt') (dead_word_2-ClaimKeeps w id lt')
      (dead_word_3-ClaimKeeps w id lt') c lt
