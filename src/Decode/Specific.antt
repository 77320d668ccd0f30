-- ===== src/Decode/Specific.antt =====
-- Which row `ARM_decoder_dispatch` (ARM_decode_table.c) finds: the table is in the order of falling
-- numbers of mask bits.
use rpi_stub.Common.{
  ℕ, zero, suc, ◌+◌, ◌/◌, ◌%◌, ◌≤◌, ◌≡◌, ◌≢◌, refl, sym, subst, Bool, true, Option, none, some,
  List, [], ◌∷◌, ◌&&◌, leb, Bool-cases, inl, inr, arith,
}
use mathlib.Core.List.{Memᴰ}
use mathlib.Core.List.Memᴰ
use rpi_stub.Decode.Extra.{Extra, Decoder}
use rpi_stub.Decode.Row.{DecTblEntry, hit}
use rpi_stub.Decode.Table.{decode_table}
use rpi_stub.Decode.Search.{search, dispatch, call}
use rpi_stub.Instr.Next.{NextAddr}

-- how many of the lowest `n` bits are set
unfoldable pub ones : ℕ → ℕ → ℕ
ones zero m = 0
ones (suc n) m = m % 2 + ones n (m / 2)

-- how many bits of an instruction a row looks at
unfoldable pub width : DecTblEntry → ℕ
unfolding ones
width e = ones 32 e.mask

falling : ℕ → List DecTblEntry → Bool
falling top [] = true
falling top (e ∷ es) = leb (width e) top && falling (width e) es

decode_table-falling : falling 32 decode_table ≡ true
unfolding falling width decode_table
decode_table-falling = refl

fall-head :
    (top : ℕ) (e : DecTblEntry) (es : List DecTblEntry)
    → falling top (e ∷ es) ≡ true
    → (width e ≤ top) × (falling (width e) es ≡ true)
unfolding falling
fall-head top e es h = ground arith

fall-again :
    (e : DecTblEntry) (es : List DecTblEntry)
    → falling (width e) es ≡ true
    → falling (width e) (e ∷ es) ≡ true
unfolding falling
fall-again e es h = ground arith

member-width :
    (top : ℕ) (es : List DecTblEntry) (r : DecTblEntry)
    → falling top es ≡ true
    → Memᴰ r es
    → width r ≤ top
member-width top [] r h m = absurd (Memᴰ.not-nil m)
member-width top (e ∷ es) r h (Memᴰ.head q) =
    let (below, _) = fall-head top e es h in subst (λ x. width x ≤ top) (sym q) below
member-width top (e ∷ es) r h (Memᴰ.tail m) =
    let (below, rest) = fall-head top e es h in
    let deep = member-width (width e) es r rest m in omega arith

-- the row that the search finds is the widest of those that match
data Widest (instr : ℕ) (es : List DecTblEntry) : Option DecTblEntry → Type 0 where
  widest :
      (e : DecTblEntry)
      → Memᴰ e es
      → hit instr e ≡ true
      → ((r : DecTblEntry) → Memᴰ r es → hit instr r ≡ true → width r ≤ width e)
      → Widest instr es (some e)
  no_match : ((r : DecTblEntry) → Memᴰ r es → hit instr r ≢ true) → Widest instr es none

keep-Widest :
    (instr top : ℕ) (e : DecTblEntry) (es : List DecTblEntry) (o : Option DecTblEntry)
    → hit instr e ≢ true
    → Widest instr es o
    → Widest instr (e ∷ es) o
keep-Widest instr top e es o miss (widest w m h best) = widest w (Memᴰ.tail m) h (λ r k g.
    elim (Memᴰ.cases_cons k) [
      | inl q ↦ absurd (miss (subst (λ x. hit instr x ≡ true) q g))
      | inr k ↦ best r k g
    ])
keep-Widest instr top e es o miss (no_match none_of) = no_match (λ r k g. elim (Memᴰ.cases_cons k) [
  | inl q ↦ absurd (miss (subst (λ x. hit instr x ≡ true) q g))
  | inr k ↦ none_of r k g
])

search-Widest :
    (instr top : ℕ) (es : List DecTblEntry)
    → falling top es ≡ true
    → Widest instr es (search instr es)
unfolding search
search-Widest instr top [] h = no_match (λ r m g. absurd (Memᴰ.not-nil m))
search-Widest instr top (e ∷ es) h =
    let (below, rest) = fall-head top e es h in
    elim (Bool-cases (hit instr e)) [
      | inl here ↦ rw here (
          widest e (Memᴰ.head refl) here
            (λ r m g. member-width (width e) (e ∷ es) r (fall-again e es rest) m))
      | inr miss ↦ rw miss (
          keep-Widest instr top e es _ (λ here. ground arith)
            (search-Widest instr (width e) es rest))
    ]

chosen :
    (run : Decoder → ℕ → Extra → NextAddr) (instr : ℕ) (r : DecTblEntry) (o : Option DecTblEntry)
    → Widest instr decode_table o
    → Memᴰ r decode_table
    → hit instr r ≡ true
    → (e : DecTblEntry) × Memᴰ e decode_table
      × (hit instr e ≡ true)
      × (call run instr o ≡ run e.decoder instr e.extra)
      × ((r : DecTblEntry) → Memᴰ r decode_table → hit instr r ≡ true → width r ≤ width e)
unfolding call
chosen run instr r o (widest e m h best) member here = (e, m, h, refl, best)
chosen run instr r o (no_match none_of) member here = absurd (none_of r member here)

-- When a row of the table matches an instruction, whatever the decoding functions are, the result
-- is what the function of a row gives that matches too and whose mask has as many bits as that of
-- any row that matches.
pub dispatch_most_specific :
    (run : Decoder → ℕ → Extra → NextAddr) (instr : ℕ) (r : DecTblEntry)
    → Memᴰ r decode_table
    → hit instr r ≡ true
    → (e : DecTblEntry) × Memᴰ e decode_table
      × (hit instr e ≡ true)
      × (dispatch run instr ≡ run e.decoder instr e.extra)
      × ((r : DecTblEntry) → Memᴰ r decode_table → hit instr r ≡ true → width r ≤ width e)
unfolding dispatch
dispatch_most_specific run instr r member here =
    chosen run instr r _ (search-Widest instr 32 decode_table decode_table-falling) member here
