-- ===== src/Fs/Bytes.antt =====
-- The bytes of the disk map of tp-parte4/fs, which memmove, strcmp and strcpy read and write. A word has its low
-- byte first.
use sistemas_operativos_2c.Common.{
  ℕ, zero, suc, ◌+◌, ◌-◌, ◌*◌, ◌/◌, ◌%◌, ◌<◌, ◌≡◌, refl, ap, sym, ◌∙◌, List, [], ◌∷◌, ◌&&◌, ◌==◌,
  if◌then◌else◌, arith, ltb, leb, length, All, ==-refl, ==_ne, update_ne, ◌≢◌,
}
use native.Mathlib.Decide.{ℕ_discrete}
use sistemas_operativos_2c.Fs.{Store, stored}

-- The weight of byte `k` of a word.
abbrev weight : ℕ → ℕ
weight k = if k == 0 then 1 else if k == 1 then 0x100 else if k == 2 then 0x10000 else 0x1000000

abbrev pub byte_of : (k w : ℕ) → ℕ
byte_of k w = w / weight k % 256

abbrev with_byte : (k v w : ℕ) → ℕ
with_byte k v w = w % weight k + v * weight k + w / (weight k * 256) * (weight k * 256)

-- `blk[off]`, of the block `b`
unfoldable pub load_byte : (b off : ℕ) → Store → ℕ
load_byte b off d = byte_of (off % 4) (d.word b (off / 4))

-- `blk[off] = v`
pub store_byte : (b off v : ℕ) → Store → Store
store_byte b off v d = stored b (off / 4) (with_byte (off % 4) v (d.word b (off / 4))) d

-- `n` bytes from `off` on, and a list of bytes written there.
unfoldable pub load_bytes : (n b off : ℕ) → Store → List ℕ
unfolding load_byte
load_bytes zero b off d = []
load_bytes (suc n) b off d = load_byte b off d ∷ load_bytes n b (off + 1) d

unfoldable pub store_bytes : (b off : ℕ) → List ℕ → Store → Store
unfolding store_byte
store_bytes b off [] d = d
store_bytes b off (v ∷ vs) d = store_bytes b (off + 1) vs (store_byte b off v d)

byte_of-with_byte :
    (k j v w : ℕ)
    → k < 4
    → j < 4
    → v < 256
    → byte_of j (with_byte k v w) ≡ (if k == j then v else byte_of j w)
byte_of-with_byte zero zero v w hk hj hv = omega arith
byte_of-with_byte zero (suc zero) v w hk hj hv = omega arith
byte_of-with_byte zero (suc (suc zero)) v w hk hj hv = omega arith
byte_of-with_byte zero (suc (suc (suc zero))) v w hk hj hv = omega arith
byte_of-with_byte (suc zero) zero v w hk hj hv = omega arith
byte_of-with_byte (suc zero) (suc zero) v w hk hj hv = omega arith
byte_of-with_byte (suc zero) (suc (suc zero)) v w hk hj hv = omega arith
byte_of-with_byte (suc zero) (suc (suc (suc zero))) v w hk hj hv = omega arith
byte_of-with_byte (suc (suc zero)) zero v w hk hj hv = omega arith
byte_of-with_byte (suc (suc zero)) (suc zero) v w hk hj hv = omega arith
byte_of-with_byte (suc (suc zero)) (suc (suc zero)) v w hk hj hv = omega arith
byte_of-with_byte (suc (suc zero)) (suc (suc (suc zero))) v w hk hj hv = omega arith
byte_of-with_byte (suc (suc (suc zero))) zero v w hk hj hv = omega arith
byte_of-with_byte (suc (suc (suc zero))) (suc zero) v w hk hj hv = omega arith
byte_of-with_byte (suc (suc (suc zero))) (suc (suc zero)) v w hk hj hv = omega arith
byte_of-with_byte (suc (suc (suc zero))) (suc (suc (suc zero))) v w hk hj hv = omega arith
byte_of-with_byte (suc (suc (suc (suc k)))) j v w hk hj hv = absurd (omega arith)
byte_of-with_byte zero (suc (suc (suc (suc j)))) v w hk hj hv = absurd (omega arith)
byte_of-with_byte (suc zero) (suc (suc (suc (suc j)))) v w hk hj hv = absurd (omega arith)
byte_of-with_byte (suc (suc zero)) (suc (suc (suc (suc j)))) v w hk hj hv = absurd (omega arith)
byte_of-with_byte (suc (suc (suc zero))) (suc (suc (suc (suc j)))) v w hk hj hv =
    absurd (omega arith)

remainder : (o o' : ℕ) → o / 4 ≡ o' / 4 → (o % 4 == o' % 4) ≡ (o == o')
remainder o o' same = ground arith

load_byte-same_word :
    (b o v o' : ℕ) (d : Store)
    → o / 4 ≡ o' / 4
    → v < 256
    → load_byte b o' (store_byte b o v d) ≡ (if o == o' then v else load_byte b o' d)
unfolding load_byte store_byte
load_byte-same_word b o v o' d same hv = rw same (
    rw (==-refl b, ==-refl (o' / 4))
      (byte_of-with_byte (o % 4) (o' % 4) v (d.word b (o' / 4)) (omega arith) (omega arith) hv
        ∙ ap (λ t. if t then v else byte_of (o' % 4) (d.word b (o' / 4))) (remainder o o' same)))

-- A byte that is written is read back, and no other byte changes.
pub load_byte-store_byte :
    (b o v b' o' : ℕ) (d : Store)
    → v < 256
    → load_byte b' o' (store_byte b o v d) ≡ (if b == b' && o == o' then v else load_byte b' o' d)
unfolding load_byte store_byte
load_byte-store_byte b o v b' o' d hv = elim (ℕ_discrete b b') [
  | no ne ↦ rw (==_ne b b' ne) refl
  | yes e ↦ rw (← e) (elim (ℕ_discrete (o / 4) (o' / 4)) [
    | yes same ↦
        load_byte-same_word b o v o' d same hv
        ∙ ap (λ t. if t && o == o' then v else load_byte b o' d) (sym (==-refl b))
    | no other ↦
        rw
          (
            ==-refl b,
            ==_ne (o / 4) (o' / 4) other,
            ==_ne o o' (λ same. other (ap (λ x. x / 4) same)),
          )
          refl
  ])
]

abbrev pub byte_at : List ℕ → ℕ → ℕ
byte_at [] i = 0
byte_at (v ∷ vs) zero = v
byte_at (v ∷ vs) (suc i) = byte_at vs i

byte_at-cons :
    (v : ℕ) (vs : List ℕ) (i : ℕ) → byte_at (v ∷ vs) i ≡ (if i == 0 then v else byte_at vs (i - 1))
byte_at-cons v vs zero = refl
byte_at-cons v vs (suc i) = ground arith

predecessor : (o off : ℕ) → o - off - 1 ≡ o - (off + 1)
predecessor o off = omega arith

pub load_byte-store_bytes :
    (b off : ℕ) (vs : List ℕ) (b' o : ℕ) (d : Store)
    → All (λ v. v < 256) vs
    → load_byte b' o (store_bytes b off vs d) ≡ (
        if b == b' && (leb off o && ltb o (off + length vs))
        then byte_at vs (o - off)
        else load_byte b' o d)
unfolding store_bytes
load_byte-store_bytes b off [] b' o d h = ground arith
load_byte-store_bytes b off (v ∷ vs) b' o d h = ground (
  arith,
  load_byte-store_bytes b (off + 1) vs b' o (store_byte b off v d) h.1,
  load_byte-store_byte b off v b' o d h.0,
  byte_at-cons v vs (o - off),
  ap (byte_at vs) (predecessor o off),
)

pub store_bytes-word :
    (b off : ℕ) (vs : List ℕ) (b' : ℕ) (d : Store)
    → b ≢ b'
    → (store_bytes b off vs d).word b' ≡ d.word b'
unfolding store_bytes store_byte
store_bytes-word b off [] b' d h = refl
store_bytes-word b off (v ∷ vs) b' d h =
    store_bytes-word b (off + 1) vs b' (store_byte b off v d) h ∙ update_ne d.word b _ b' h
