-- ===== src/Ext2/Alloc/Scan.antt =====
-- The scans of a bitmap find the first clear bit.
use rpi_os_cfs_ext.Base.{
  ℕ, zero, suc, ◌+◌, ◌-◌, ◌*◌, ◌/◌, ◌%◌, ◌^◌, ◌≤◌, ◌<◌, ◌≡◌, inl, inr, refl, arith, Option, none,
  some, ◌==◌, u8, bit_and, Bool-cases, ltb, ltb→lt, Option-cases, sym, ◌∙◌, subst,
}
use rpi_os_cfs_ext.Base.Bytes.{Bytes}
use rpi_os_cfs_ext.Base.Bits.{
  bit_at, bit_and_mask, bit_at-lt, bit_at-full, bitmap_at, next_mask, pow_pos,
}
use rpi_os_cfs_ext.Ext2.Alloc.{scan_bits, scan_bytes, in_byte, or_else, search_bitmap}

-- What a scan of the bits `[bit, bit + left)` of `byte` says.
abbrev BitsScanned : ℕ → ℕ → ℕ → Option ℕ → Type 0
BitsScanned byte bit left none = (j : ℕ) → bit ≤ j → j < bit + left → bit_at byte j ≡ 1
BitsScanned byte bit left (some b) =
    (bit ≤ b)
    × (b < bit + left)
    × (bit_at byte b ≡ 0)
    × ((j : ℕ) → bit ≤ j → j < b → bit_at byte j ≡ 1)

-- The test of one bit.
bit_test :
    (byte bit : ℕ) → bit < 8 → byte < 256 → (bit_and byte (2 ^ bit) == 0) ≡ (bit_at byte bit == 0)
bit_test byte bit hb hx = elim (Bool-cases (bit_at byte bit == 0)) [
  | inl e ↦ ground (arith, bit_and_mask bit byte hb hx)
  | inr e ↦
      let one : bit_at byte bit ≡ 1 = ground (arith, bit_at-lt byte bit) in
      rw (bit_and_mask bit byte hb hx, one) (ground (arith, pow_pos bit hb))
]

-- A set bit in front of the scanned ones.
BitsScanned-suc :
    (byte bit left : ℕ) (o : Option ℕ)
    → bit_at byte bit ≡ 1
    → BitsScanned byte (bit + 1) left o
    → BitsScanned byte bit (suc left) o
BitsScanned-suc byte bit left none one r = λ j lo hi. elim (Bool-cases (j == bit)) [
  | inl e ↦ rw (let e' : j ≡ bit = ground arith in e') one
  | inr e ↦ r j (ground arith) (omega arith)
]
BitsScanned-suc byte bit left (some b) one r = (
  omega arith,
  omega arith,
  r.2,
  λ j lo hi. elim (Bool-cases (j == bit)) [
    | inl e ↦ rw (let e' : j ≡ bit = ground arith in e') one
    | inr e ↦ r.3 j (ground arith) hi
  ],
)

scan_bits_lem :
    (left bit mask byte : ℕ)
    → bit + left ≤ 8
    → byte < 256
    → (0 < left → mask ≡ 2 ^ bit)
    → BitsScanned byte bit left (scan_bits left bit mask byte)
unfolding scan_bits
scan_bits_lem zero bit mask byte h hx m = λ j lo hi. absurd (omega arith)
scan_bits_lem (suc left) bit mask byte h hx m =
    let rest =
      scan_bits_lem left (bit + 1) (u8 (2 ^ bit * 2)) byte (omega arith) hx
        (λ p. next_mask bit (omega arith)) in
    rw (m (omega arith), bit_test byte bit (omega arith) hx)
      (elim (Bool-cases (bit_at byte bit == 0)) [
        | inl e ↦ rw e (omega arith, omega arith, ground arith, λ j lo hi. absurd (omega arith))
        | inr e ↦ rw e (BitsScanned-suc byte bit left _ (ground (arith, bit_at-lt byte bit)) rest)
      ])

abbrev pub AllSet : Bytes → ℕ → ℕ → Type 0
AllSet block lo hi = (n : ℕ) → lo ≤ n → n < hi → bitmap_at block n ≡ 1

-- What a scan of the bits `[lo, hi)` of a bitmap says: the first clear one, if there is one.
abbrev pub Scanned : Bytes → ℕ → ℕ → Option ℕ → Type 0
Scanned block lo hi none = AllSet block lo hi
Scanned block lo hi (some b) = (lo ≤ b) × (b < hi) × (bitmap_at block b ≡ 0) × AllSet block lo b

module _ (block : Bytes) where
  -- Bits are counted in bytes.
  bitmap_at_byte : (k j : ℕ) → j < 8 → bitmap_at block (k * 8 + j) ≡ bit_at (block k) j
  bitmap_at_byte k j h =
      let q : (k * 8 + j) / 8 ≡ k = omega arith in
      let r : (k * 8 + j) % 8 ≡ j = omega arith in rw (q, r)

  AllSet-byte :
      (k l hi : ℕ)
      → hi ≤ k * 8 + l
      → l ≤ 8
      → ((j : ℕ) → 0 ≤ j → j < l → bit_at (block k) j ≡ 1)
      → AllSet block (k * 8) hi
  AllSet-byte k l hi e hl all n lo lt =
      let n' : n ≡ k * 8 + (n - k * 8) = omega arith in
      rw n'
        (bitmap_at_byte k (n - k * 8) (omega arith) ∙ all (n - k * 8) (omega arith) (omega arith))

  Scanned-byte :
      (k l : ℕ) (o : Option ℕ)
      → l ≤ 8
      → BitsScanned (block k) 0 l o
      → Scanned block (k * 8) (k * 8 + l) (in_byte k o)
  Scanned-byte k l none hl r =
      AllSet-byte k l (k * 8 + l) (omega arith) hl (λ j lo hi. r j lo (omega arith))
  Scanned-byte k l (some b) hl r = (
    omega arith,
    omega arith,
    bitmap_at_byte k b (omega arith) ∙ r.2,
    AllSet-byte k b (k * 8 + b) (omega arith) (omega arith) r.3,
  )

  AllSet-append : (lo mid hi : ℕ) → AllSet block lo mid → AllSet block mid hi → AllSet block lo hi
  AllSet-append lo mid hi a b n l h = elim (Bool-cases (ltb n mid)) [
    | inl e ↦ a n l (ltb→lt n mid e)
    | inr e ↦ b n (ground arith) h
  ]

  pub Scanned-append :
      (lo mid hi : ℕ) (o : Option ℕ)
      → lo ≤ mid
      → AllSet block lo mid
      → Scanned block mid hi o
      → Scanned block lo hi o
  Scanned-append lo mid hi none h a r = AllSet-append lo mid hi a r
  Scanned-append lo mid hi (some b) h a r = (omega arith, r.1, r.2, AllSet-append lo mid b a r.3)

  Scanned-or_else :
      (lo mid hi : ℕ) (o o' : Option ℕ)
      → lo ≤ mid
      → mid ≤ hi
      → Scanned block lo mid o
      → Scanned block mid hi o'
      → Scanned block lo hi (or_else o o')
  Scanned-or_else lo mid hi none o' h h' a r = Scanned-append lo mid hi o' h a r
  Scanned-or_else lo mid hi (some b) o' h h' a r = (a.0, omega arith, a.2, a.3)

  module _ (bytes : (a : ℕ) → block a < 256) where
    pub scan_byte :
        (k l : ℕ)
        → l ≤ 8
        → (o : Option ℕ) → scan_bits l 0 1 (block k) ≡ o
        → Scanned block (k * 8) (k * 8 + l) (in_byte k o)
    scan_byte k l h o e = Scanned-byte k l o h (
        subst (BitsScanned (block k) 0 l) e
          (scan_bits_lem l 0 1 (block k) (omega arith) (bytes k) (λ p. refl)))

    scan_bytes_lem :
        (left offset hi : ℕ)
        → hi ≡ (offset + left) * 8
        → Scanned block (offset * 8) hi (scan_bytes left offset block)
    unfolding scan_bytes
    scan_bytes_lem zero offset hi e = λ n lo lt. absurd (omega arith)
    scan_bytes_lem (suc left) offset hi e =
        let rest = scan_bytes_lem left (offset + 1) hi (omega arith) in
        elim (Bool-cases (block offset == 0xff)) [
          | inl full ↦ rw full (
              Scanned-append (offset * 8) ((offset + 1) * 8) hi _ (omega arith)
                (AllSet-byte offset 8 ((offset + 1) * 8) (omega arith) (omega arith) λ j lo lt.
                  rw (let b : block offset ≡ 0xff = ground arith in b) (bit_at-full j lt))
                rest)
          | inr free ↦ rw free (elim (Option-cases (scan_bits 8 0 1 (block offset))) [
            | inl no_bit ↦ rw no_bit (
                Scanned-append (offset * 8) ((offset + 1) * 8) hi _ (omega arith)
                  (λ n lo lt. scan_byte offset 8 (omega arith) none no_bit n lo (omega arith)) rest)
            | inr (b, found) ↦
                let r = scan_byte offset 8 (omega arith) (some b) found in
                rw found (r.0, omega arith, r.2, r.3)
          ])
        ]

    -- The search gives the first clear bit from byte `first` on.
    pub search_bitmap_lem :
        (per_group first : ℕ)
        → first ≤ per_group / 8
        → Scanned block (first * 8) per_group (search_bitmap per_group first block)
    unfolding search_bitmap
    search_bitmap_lem per_group first h =
        let k = per_group / 8 in
        let e : per_group ≡ k * 8 + per_group % 8 = omega arith in
        Scanned-or_else (first * 8) (k * 8) per_group (scan_bytes (k - first) first block) _
          (omega arith) (omega arith) (scan_bytes_lem (k - first) first (k * 8) (omega arith))
          (subst
            (λ hi. Scanned block (k * 8) hi (in_byte k (scan_bits (per_group % 8) 0 1 (block k))))
            (sym e)
            (scan_byte k (per_group % 8) (omega arith) (scan_bits (per_group % 8) 0 1 (block k))
              refl))
