-- ===== src/Decode/Narrow.antt =====
-- Which row an instruction hits in the table (ARM_decode_table_data.h), from the bits that are known
-- of it and from a condition other than 15.
use rpi_stub.Common.{
  ℕ, ◌+◌, ◌-◌, ◌*◌, ◌/◌, ◌%◌, ◌^◌, ◌<◌, ◌≡◌, ◌≢◌, refl, ap, subst, ◌∙◌, sym, Bool, true, false,
  Option, none, some, List, [], ◌∷◌, ◌==◌, if◌then◌else◌, bit_and, bit_and-field, bit_and-mask,
  bit_and_swap, bit_and_assoc, bit_and_below, ==_iff, ==-refl, Bool-cases, inl, inr, arith,
}
use native.Mathlib.Nat.{one-le-pow, mul-div_cancel}
use rpi_stub.Instr.Word.{bit, bitrng}
use rpi_stub.Instr.Condition.{field}
use rpi_stub.Instr.Next.{NextAddr}
use rpi_stub.Decode.Extra.{Extra, Decoder}
use rpi_stub.Decode.Row.{DecTblEntry, hit}
use rpi_stub.Decode.Table.{decode_table}
use rpi_stub.Decode.Search.{search, call, dispatch, narrow, search-narrow}

-- a row of the encodings without a condition
unfoldable pub uncond : DecTblEntry → Bool
uncond e = bit_and e.«data» 0xf0000000 == 0xf0000000

unfoldable pub conditional_rows : List DecTblEntry → List DecTblEntry
unfolding uncond
conditional_rows [] = []
conditional_rows (e ∷ es) = if uncond e then conditional_rows es else e ∷ conditional_rows es

hit-uncond :
    (instr : ℕ) (e : DecTblEntry) → field instr ≢ 15 → uncond e ≡ true → hit instr e ≡ false
unfolding hit uncond
hit-uncond instr e c u = elim (Bool-cases (bit_and instr e.mask == e.«data»)) [
  | inl h ↦
      let (is, _) = ==_iff (bit_and instr e.mask) e.«data» in
      let (top, _) = ==_iff (bit_and e.«data» 0xf0000000) 0xf0000000 in
      let same = ap (λ d. bit_and d 0xf0000000) (is h) in
      let swapped = bit_and_swap instr e.mask 0xf0000000 in
      let low = bit_and_below (bit_and instr 0xf0000000) e.mask in
      let shape = bit_and-field 28 4 instr in let full = top u in absurd (omega arith)
  | inr h ↦ h
]

search-conditional :
    (instr : ℕ) (es : List DecTblEntry)
    → field instr ≢ 15
    → search instr es ≡ search instr (conditional_rows es)
unfolding search conditional_rows
search-conditional instr [] c = refl
search-conditional instr (e ∷ es) c =
    let rest = search-conditional instr es c in
    elim (Bool-cases (uncond e)) [
      | inl u ↦ rw (u, hit-uncond instr e c u) rest
      | inr u ↦ rw u (ap (λ o. if hit instr e then some e else o) rest)
    ]

-- the first of the rows left
unfoldable pub first_row : List DecTblEntry → Option DecTblEntry
first_row [] = none
first_row (e ∷ es) = some e

unfoldable pub candidate : ℕ → ℕ → Option DecTblEntry
unfolding first_row narrow conditional_rows decode_table
candidate known value = first_row (narrow known value (conditional_rows decode_table))

search-first :
    (instr : ℕ) (es : List DecTblEntry) (e : DecTblEntry)
    → first_row es ≡ some e
    → hit instr e ≡ true
    → search instr es ≡ some e
unfolding first_row search
search-first instr [] e h here = absurd cc
search-first instr (x ∷ xs) e h here =
    let same : x ≡ e = cc in subst (λ y. search instr (y ∷ xs) ≡ some e) (sym same) (rw here refl)

hit-known :
    (known value instr : ℕ) (e : DecTblEntry)
    → bit_and instr known ≡ value
    → bit_and known e.mask ≡ e.mask
    → bit_and value e.mask ≡ e.«data»
    → hit instr e ≡ true
unfolding hit
hit-known known value instr e k m d =
    let same : bit_and instr e.mask ≡ e.«data» =
      ap (λ x. bit_and instr x) (sym m)
      ∙ sym (bit_and_assoc instr known e.mask)
      ∙ ap (λ x. bit_and x e.mask) k
      ∙ d in
    rw same (==-refl e.«data»)

-- An instruction under a condition, whose known bits leave a row first that looks at no others, is
-- decoded by this row.
pub dispatch-known :
    (run : Decoder → ℕ → Extra → NextAddr) (known value instr : ℕ) (e : DecTblEntry)
    → candidate known value ≡ some e
    → field instr ≢ 15
    → bit_and instr known ≡ value
    → bit_and known e.mask ≡ e.mask
    → bit_and value e.mask ≡ e.«data»
    → dispatch run instr ≡ run e.decoder instr e.extra
unfolding dispatch call candidate
dispatch-known run known value instr e left c k m d =
    let all = search-conditional instr decode_table c in
    let few = search-narrow known value instr (conditional_rows decode_table) k in
    let here = hit-known known value instr e k m d in
    rw (all, few, search-first instr _ e left here) refl

-- The fields inside the known bits.
pub known-field :
    (known value instr i k : ℕ)
    → bit_and instr known ≡ value
    → bit_and known ((2 ^ k - 1) * 2 ^ i) ≡ (2 ^ k - 1) * 2 ^ i
    → instr / 2 ^ i % 2 ^ k * 2 ^ i ≡ bit_and value ((2 ^ k - 1) * 2 ^ i)
known-field known value instr i k h inside =
    sym (bit_and-field i k instr)
    ∙ ap (λ x. bit_and instr x) (sym inside)
    ∙ sym (bit_and_assoc instr known ((2 ^ k - 1) * 2 ^ i))
    ∙ ap (λ x. bit_and x ((2 ^ k - 1) * 2 ^ i)) h

known-part :
    (known value instr lo k v : ℕ)
    → bit_and instr known ≡ value
    → bit_and known ((2 ^ k - 1) * 2 ^ lo) ≡ (2 ^ k - 1) * 2 ^ lo
    → bit_and value ((2 ^ k - 1) * 2 ^ lo) / 2 ^ lo ≡ v
    → bit_and (instr / 2 ^ lo) (2 ^ k - 1) ≡ v
known-part known value instr lo k v h inside part =
    let some_power : 0 < 2 ^ lo = omega (arith, one-le-pow lo 2) in
    bit_and-mask k (instr / 2 ^ lo)
    ∙ sym (mul-div_cancel (instr / 2 ^ lo % 2 ^ k) some_power)
    ∙ ap (λ x. x / 2 ^ lo) (known-field known value instr lo k h inside)
    ∙ part

-- What `bitrng` and `bit` take from the known bits.
pub known-bitrng :
    (known value instr hi lo v : ℕ)
    → bit_and instr known ≡ value
    → bit_and known ((2 ^ (hi - lo + 1) - 1) * 2 ^ lo) ≡ (2 ^ (hi - lo + 1) - 1) * 2 ^ lo
    → bit_and value ((2 ^ (hi - lo + 1) - 1) * 2 ^ lo) / 2 ^ lo ≡ v
    → bitrng instr hi lo ≡ v
unfolding bitrng
known-bitrng known value instr hi lo v = known-part known value instr lo (hi - lo + 1) v

pub known-bit :
    (known value instr i v : ℕ)
    → bit_and instr known ≡ value
    → bit_and known ((2 ^ 1 - 1) * 2 ^ i) ≡ (2 ^ 1 - 1) * 2 ^ i
    → bit_and value ((2 ^ 1 - 1) * 2 ^ i) / 2 ^ i ≡ v
    → bit instr i ≡ v
unfolding bit
known-bit known value instr i v = known-part known value instr i 1 v
