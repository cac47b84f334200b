-- ===== src/ApiConfigSync/Addresses/Blocks.antt =====
-- examples/apiconfigsync/src/url_policy.rs: the blocks of addresses that are not public.
use Prim.Native.Nat.{bit_and}
use koprs.Prelude.{
  ℕ, zero, suc, ◌+◌, ◌*◌, ◌<◌, ◌≡◌, refl, sym, Bool, true, false, not, ◌&&◌, ◌||◌, List, [], ◌∷◌,
  any, leb, ◌==◌, arith, ◌-◌, ◌^◌,
}
use koprs.ApiConfigSync.Addresses.{
  Ipv4Addr, is_public_v4, is_unspecified, is_loopback, is_link_local, is_broadcast, is_multicast,
}

-- An address as a number.
abbrev pub address : Ipv4Addr → ℕ
address ip = ip.o0 * 16777216 + ip.o1 * 65536 + ip.o2 * 256 + ip.o3

-- The first and the last address of a block.
abbrev pub Block : Type 0
Block = ℕ × ℕ

abbrev pub within : ℕ → Block → Bool
within n (lo, hi) = leb lo n && leb n hi

abbrev pub IsAddress : Ipv4Addr → Type 0
IsAddress ip = (ip.o0 < 256) × (ip.o1 < 256) × (ip.o2 < 256) × (ip.o3 < 256)

-- A property of every octet is checked octet by octet.
all_octets : ℕ → (ℕ → Bool) → Bool
all_octets zero p = true
all_octets (suc n) p = p n && all_octets n p

all_octets_sound : (n : ℕ) (p : ℕ → Bool) (x : ℕ) → all_octets n p ≡ true → x < n → p x ≡ true
unfolding all_octets
all_octets_sound zero p x h lt = absurd (omega arith)
all_octets_sound (suc n) p x h lt = ground (arith, all_octets_sound n p x)

abbrev same : Bool → Bool → Bool
same true b = b
same false b = not b

same_lem : (a b : Bool) → same a b ≡ true → a ≡ b
same_lem true b h = sym h
same_lem false true h = cc
same_lem false false h = refl

shared_table : all_octets 256 (λ x. same (bit_and x 0xc0 == 64) (leb 64 x && leb x 127)) ≡ true
unfolding all_octets
shared_table = refl

bench_table : all_octets 256 (λ x. same (bit_and x 0xfe == 18) (leb 18 x && leb x 19)) ≡ true
unfolding all_octets
bench_table = refl

shared_mask : (x : ℕ) → x < 256 → (bit_and x 0xc0 == 64) ≡ (leb 64 x && leb x 127)
shared_mask x h = same_lem _ _ (all_octets_sound 256 _ x shared_table h)

bench_mask : (x : ℕ) → x < 256 → (bit_and x 0xfe == 18) ≡ (leb 18 x && leb x 19)
bench_mask x h = same_lem _ _ (all_octets_sound 256 _ x bench_table h)

-- The same tests in two orders, where `u` and `bc` are covered by `z` and `rs`.
regroup :
    (u lb pa pb pc ll bc mc da db dc z cg pr bm rs : Bool)
    → (u ≡ true → z ≡ true)
    → (bc ≡ true → rs ≡ true)
    → not (
        u
        || lb
        || (pa || pb || pc)
        || ll
        || bc
        || mc
        || (da || db || dc)
        || z
        || cg
        || pr
        || bm
        || rs)
      ≡ not (any (λ b. b) (z ∷ pa ∷ cg ∷ lb ∷ ll ∷ pb ∷ pr ∷ da ∷ pc ∷ bm ∷ db ∷ dc ∷ mc ∷ rs ∷ []))
regroup u lb pa pb pc ll bc mc da db dc z cg pr bm rs hu hb = ground arith

-- The block of `size` addresses from an address on.
abbrev pub block : ℕ → ℕ → ℕ → ℕ → ℕ → Block
block a b c d size = let lo = a * 16777216 + b * 65536 + c * 256 + d in (lo, lo + size - 1)

-- The blocks that RFC 6890 and its updates keep from the public Internet.
abbrev pub special_blocks : List Block
special_blocks =
    block 0 0 0 0 (2 ^ 24)
    ∷ block 10 0 0 0 (2 ^ 24)
    ∷ block 100 64 0 0 (2 ^ 22)
    ∷ block 127 0 0 0 (2 ^ 24)
    ∷ block 169 254 0 0 (2 ^ 16)
    ∷ block 172 16 0 0 (2 ^ 20)
    ∷ block 192 0 0 0 (2 ^ 8)
    ∷ block 192 0 2 0 (2 ^ 8)
    ∷ block 192 168 0 0 (2 ^ 16)
    ∷ block 198 18 0 0 (2 ^ 17)
    ∷ block 198 51 100 0 (2 ^ 8)
    ∷ block 203 0 113 0 (2 ^ 8)
    ∷ block 224 0 0 0 (2 ^ 28)
    ∷ block 240 0 0 0 (2 ^ 28)
    ∷ []

module _ (ip : Ipv4Addr) (h : IsAddress ip) where
  slash8 : (a : ℕ) → within (address ip) (block a 0 0 0 (2 ^ 24)) ≡ (ip.o0 == a)
  slash8 a = ground arith

  slash16 :
      (a b : ℕ)
      → b < 256
      → within (address ip) (block a b 0 0 (2 ^ 16)) ≡ (ip.o0 == a && ip.o1 == b)
  slash16 a b l = ground arith

  slash24 :
      (a b c : ℕ)
      → b < 256
      → c < 256
      → within (address ip) (block a b c 0 (2 ^ 8)) ≡ (ip.o0 == a && ip.o1 == b && ip.o2 == c)
  slash24 a b c l m = ground arith

  shared :
      within (address ip) (block 100 64 0 0 (2 ^ 22))
      ≡ (ip.o0 == 100 && (leb 64 ip.o1 && leb ip.o1 127))
  shared = ground arith

  private12 :
      within (address ip) (block 172 16 0 0 (2 ^ 20))
      ≡ (ip.o0 == 172 && leb 16 ip.o1 && leb ip.o1 31)
  private12 = ground arith

  bench :
      within (address ip) (block 198 18 0 0 (2 ^ 17))
      ≡ (ip.o0 == 198 && (leb 18 ip.o1 && leb ip.o1 19))
  bench = ground arith

  multicast : within (address ip) (block 224 0 0 0 (2 ^ 28)) ≡ (leb 224 ip.o0 && leb ip.o0 239)
  multicast = ground arith

  reserved : within (address ip) (block 240 0 0 0 (2 ^ 28)) ≡ leb 240 ip.o0
  reserved = ground arith

  -- An address is public exactly when it is in none of the special blocks.
  pub is_public_v4-special_blocks : is_public_v4 ip ≡ not (any (within (address ip)) special_blocks)
  unfolding is_public_v4
  is_public_v4-special_blocks =
      rw
        (
          slash8 0,
          slash8 10,
          shared,
          slash8 127,
          slash16 169 254 (omega arith),
          private12,
          slash24 192 0 0 (omega arith) (omega arith),
          slash24 192 0 2 (omega arith) (omega arith),
          slash16 192 168 (omega arith),
          bench,
          slash24 198 51 100 (omega arith) (omega arith),
          slash24 203 0 113 (omega arith) (omega arith),
          multicast,
          reserved,
          shared_mask ip.o1 h.1,
          bench_mask ip.o1 h.1,
        )
        (regroup (is_unspecified ip) (is_loopback ip) (ip.o0 == 10)
          (ip.o0 == 172 && leb 16 ip.o1 && leb ip.o1 31) (ip.o0 == 192 && ip.o1 == 168)
          (is_link_local ip) (is_broadcast ip) (is_multicast ip)
          (ip.o0 == 192 && ip.o1 == 0 && ip.o2 == 2) (ip.o0 == 198 && ip.o1 == 51 && ip.o2 == 100)
          (ip.o0 == 203 && ip.o1 == 0 && ip.o2 == 113) (ip.o0 == 0)
          (ip.o0 == 100 && (leb 64 ip.o1 && leb ip.o1 127))
          (ip.o0 == 192 && ip.o1 == 0 && ip.o2 == 0)
          (ip.o0 == 198 && (leb 18 ip.o1 && leb ip.o1 19)) (leb 240 ip.o0) (λ u. ground arith)
          (λ u. ground arith))
